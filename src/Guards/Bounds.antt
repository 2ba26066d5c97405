-- ===== src/Guards/Bounds.antt =====
-- What the counting guards bound: the calls that reach the backend in one turn.
use assist.Base.Dict.{same→≡}
use assist.Guards.Messages.{ToolCall, ToolResult, Message, ai, is_true}
use assist.Guards.Events.{Signatures, Event, paired, extract_events}
use assist.Guards.Breakers.{
  Verdict, run, is_search, is_unavailable, count_search_unavailable, guard_unavailable,
  normalize_query, query_of, completed_searches, has_query, is_empty_result, bound_search,
  guard_runaway, url_of, reads, prior_read_count, guard_reread,
}
use assist.Guards.Turns.{
  Turn, begin, executed, refused, turn_events, Turn-slice, turn_events-pending, turn_events-paired,
}
use assist.Base.{
  ℕ, ◌≤◌, ◌<◌, max, String, Bool, true, false, ◌&&◌, ◌≡◌, refl, sym, ap, subst, List, [], ◌∷◌, ◌++◌,
  none, some, same, any, keep, length, count_if, count_if-append, arith, inl, inr, Bool-cases,
}

-- A guard that lets a call through only while fewer than `n` completed calls of a kind stand in the
-- turn bounds those it lets through.
pub turn_bounded :
    (g : Signatures) (wrap : ToolCall → List Message → Verdict) (p : Event → Bool) (n : ℕ)
    {ms : List Message} {hits : List Event}
    → ((tc : ToolCall) (ms : List Message) (r : ToolResult)
        → wrap tc ms ≡ run
        → p (paired g tc (some r)) ≡ true
        → count_if p (turn_events g ms) < n)
    → Turn g wrap ms hits
    → (count_if p hits ≤ n) × (count_if p hits ≤ count_if p (turn_events g ms))
turn_bounded g wrap p n guard (begin before s ids) = (omega arith, omega arith)
turn_bounded g wrap p n guard (executed {ms = ms} {hits = hits} m tc r t a f e) =
    let (within, fewer) = turn_bounded g wrap p n guard t in
    let (sl, there) = Turn-slice g wrap t in
    let added = ap (count_if p) (turn_events-paired g ms sl m tc r there a f) in
    let still = ap (count_if p) (turn_events-pending g ms sl m tc r.tool_call_id there a f) in
    let one = paired g tc (some r) in
    elim (Bool-cases (p one)) [
      | inl h ↦
          let room = guard tc (ms ++ ai m ∷ []) r e h in
          ground (
            arith,
            within,
            fewer,
            added,
            still,
            room,
            h,
            count_if-append p hits (one ∷ []),
            count_if-append p (turn_events g ms) (one ∷ []),
          )
      | inr h ↦ ground (
        arith,
        within,
        fewer,
        added,
        h,
        count_if-append p hits (one ∷ []),
        count_if-append p (turn_events g ms) (one ∷ []),
      )
    ]
turn_bounded g wrap p n guard (refused {ms = ms} m tc r t a f e) =
    let (within, fewer) = turn_bounded g wrap p n guard t in
    let (sl, there) = Turn-slice g wrap t in
    let added = ap (count_if p) (turn_events-paired g ms sl m tc r there a f) in
    (
      within,
      omega (arith, fewer, added, count_if-append p (turn_events g ms) (paired g tc (some r) ∷ [])),
    )

module _ {ℓ} {A : Type ℓ} where
  length-keep-keep :
      (c s : A → Bool) (xs : List A) → length (keep (λ x. c x && s x) xs) ≡ count_if s (keep c xs)
  length-keep-keep c s [] = refl
  length-keep-keep c s (x ∷ xs) = ground (arith, length-keep-keep c s xs)

  length-keep_thrice :
      (c s q : A → Bool) (xs : List A)
      → length (keep q (keep (λ x. c x && s x) xs)) ≡ count_if (λ x. s x && q x) (keep c xs)
  length-keep_thrice c s q [] = refl
  length-keep_thrice c s q (x ∷ xs) = ground (arith, length-keep_thrice c s q xs)

  count_if-none :
      (c s q e : A → Bool) (xs : List A)
      → any e (keep q (keep (λ x. c x && s x) xs)) ≡ false
      → count_if (λ x. s x && q x && e x) (keep c xs) ≡ 0
  count_if-none c s q e [] h = refl
  count_if-none c s q e (x ∷ xs) h = ground (arith, h, count_if-none c s q e xs)

  count_if-keep_within :
      (c p : A → Bool)
      → ((x : A) → p x ≡ true → c x ≡ true)
      → (xs : List A) → count_if p (keep c xs) ≡ count_if p xs
  count_if-keep_within c p h [] = refl
  count_if-keep_within c p h (x ∷ xs) = elim (Bool-cases (p x)) [
    | inl e ↦ ground (arith, e, h x e, count_if-keep_within c p h xs)
    | inr e ↦ ground (arith, e, count_if-keep_within c p h xs)
  ]

abbrev pub empties : Signatures → String → Event → Bool
empties g q e = is_search e && has_query g q e && is_empty_result g e

abbrev pub asks_for : Signatures → String → Event → Bool
asks_for g q e = is_search e && has_query g q e

let_through :
    (g : Signatures) (tc : ToolCall) (ms : List Message)
    → guard_runaway g tc ms ≡ run
    → same tc.name "search_internet" ≡ true
    → bound_search g tc (completed_searches g ms) ≡ run
unfolding guard_runaway
let_through g tc ms e h = ground (arith, e, h)

total_guard :
    (g : Signatures) (tc : ToolCall) (es : List Event) → bound_search g tc es ≡ run → length es < 50
total_guard g tc es e = ground (arith, e)

same_guard :
    (g : Signatures) (tc : ToolCall) (es : List Event)
    → bound_search g tc es ≡ run
    → length (keep (has_query g (normalize_query g (query_of tc.args))) es) < 3
same_guard g tc es e = ground (arith, e)

empty_guard :
    (g : Signatures) (tc : ToolCall) (es : List Event)
    → bound_search g tc es ≡ run
    → any (is_empty_result g) (keep (has_query g (normalize_query g (query_of tc.args))) es) ≡ false
empty_guard g tc es e = ground (arith, e)

and_parts : (a b : Bool) → (a && b) ≡ true → (a ≡ true) × (b ≡ true)
and_parts a b h = (ground arith, ground arith)

module _ (g : Signatures) (tc : ToolCall) (ms : List Message)
    (e : guard_runaway g tc ms ≡ run) where
  abbrev asked : String
  asked = normalize_query g (query_of tc.args)

  search_room : same tc.name "search_internet" ≡ true → count_if is_search (turn_events g ms) < 50
  search_room h =
      subst (λ n. n < 50) (length-keep-keep (λ x. x.completed) is_search (extract_events g ms none))
        (total_guard g tc (completed_searches g ms) (let_through g tc ms e h))

  same_room :
      same tc.name "search_internet" ≡ true → count_if (asks_for g asked) (turn_events g ms) < 3
  same_room h =
      subst (λ n. n < 3)
        (length-keep_thrice (λ x. x.completed) is_search (has_query g asked)
          (extract_events g ms none))
        (same_guard g tc (completed_searches g ms) (let_through g tc ms e h))

  empty_room :
      same tc.name "search_internet" ≡ true → count_if (empties g asked) (turn_events g ms) < 1
  empty_room h =
      let nothing =
        count_if-none (λ x. x.completed) is_search (has_query g asked) (is_empty_result g)
          (extract_events g ms none)
          (empty_guard g tc (completed_searches g ms) (let_through g tc ms e h)) in
      omega (arith, nothing)

-- In a turn whose calls are run one at a time, whatever the model asks and the backend answers: at
-- most 50 searches reach the backend, at most three of them with one query, and at most one of a
-- query that comes back empty.
pub searches_are_bounded :
    (g : Signatures) (ms : List Message) (hits : List Event) (q : String)
    → Turn g (guard_runaway g) ms hits
    → (count_if is_search hits ≤ 50)
      × (count_if (asks_for g q) hits ≤ 3)
      × (count_if (empties g q) hits ≤ 1)
searches_are_bounded g ms hits q t = (
  (turn_bounded g (guard_runaway g) is_search 50 (λ tc ms r e h. search_room g tc ms e h) t).0,
  (turn_bounded g (guard_runaway g) (asks_for g q) 3
      (λ tc ms r e h.
        let own = and_parts (same tc.name "search_internet") _ h in
        subst (λ k. count_if (asks_for g k) (turn_events g ms) < 3) (same→≡ _ q own.1)
          (same_room g tc ms e own.0))
      t).0,
  (turn_bounded g (guard_runaway g) (empties g q) 1
      (λ tc ms r e h.
        let own =
          and_parts (same tc.name "search_internet") _
            (and_parts _ (is_empty_result g (paired g tc (some r))) h).0 in
        subst (λ k. count_if (empties g k) (turn_events g ms) < 1) (same→≡ _ q own.1)
          (empty_room g tc ms e own.0))
      t).0,
)

reads_completed :
    (g : Signatures) (target : String) (x : Event) → reads g target x ≡ true → x.completed ≡ true
reads_completed g target x h = ground (arith, h)

unavailable_completed : (x : Event) → is_unavailable x ≡ true → x.completed ≡ true
unavailable_completed x h = ground (arith, h)

reread_room :
    (g : Signatures) (max_reads : ℕ) (tc : ToolCall) (ms : List Message) (r : ToolResult)
    (target : String)
    → guard_reread g max_reads tc ms ≡ run
    → reads g target (paired g tc (some r)) ≡ true
    → count_if (reads g target) (extract_events g ms none) < max_reads
unfolding guard_reread prior_read_count
reread_room g max_reads tc ms r target e h =
    let url = url_of g tc.name tc.args in
    let given : is_true url ≡ true = ground (arith, h) in
    let one : g.normalize_url url ≡ target = ground (arith, h) in
    subst (λ k. count_if (reads g k) (extract_events g ms none) < max_reads) one
      (ground (arith, e, given))

outage_room :
    (g : Signatures) (threshold : ℕ) (tc : ToolCall) (ms : List Message)
    → guard_unavailable g threshold tc ms ≡ run
    → same tc.name "search_internet" ≡ true
    → count_if is_unavailable (extract_events g ms none) < max 1 threshold
unfolding guard_unavailable count_search_unavailable
outage_room g threshold tc ms e h = ground (arith, e, h)

-- In a turn whose calls are run one at a time, at most `max_reads` reads of one page reach the
-- network, whatever forms of its URL they use.
pub rereads_are_bounded :
    (g : Signatures) (max_reads : ℕ) (ms : List Message) (hits : List Event) (target : String)
    → Turn g (guard_reread g max_reads) ms hits
    → count_if (reads g target) hits ≤ max_reads
rereads_are_bounded g max_reads ms hits target t =
    (turn_bounded g (guard_reread g max_reads) (reads g target) max_reads
      (λ tc ms r e h.
        subst (λ k. k < max_reads)
          (sym (
            count_if-keep_within (λ x. x.completed) (reads g target) (reads_completed g target)
              (extract_events g ms none)))
          (reread_room g max_reads tc ms r target e h))
      t).0

-- In a turn whose calls are run one at a time, a search backend that is down is asked at most as
-- often as the threshold, or once if that is 0.
pub outages_are_bounded :
    (g : Signatures) (threshold : ℕ) (ms : List Message) (hits : List Event)
    → Turn g (guard_unavailable g threshold) ms hits
    → count_if is_unavailable hits ≤ max 1 threshold
outages_are_bounded g threshold ms hits t =
    (turn_bounded g (guard_unavailable g threshold) is_unavailable (max 1 threshold)
      (λ tc ms r e h.
        subst (λ k. k < max 1 threshold)
          (sym (
            count_if-keep_within (λ x. x.completed) is_unavailable unavailable_completed
              (extract_events g ms none)))
          (outage_room g threshold tc ms e (and_parts (same tc.name "search_internet") _ h).0))
      t).0
