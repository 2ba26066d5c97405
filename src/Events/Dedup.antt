-- ===== src/Events/Dedup.antt =====
-- The posts of a phone, which repeats those it has no answer to: what is dispatched, and what is kept.
use assist.Base.Dict
use assist.Base.Dict.{Dict, get-put, same_self, same→≡}
use assist.Events.Inbound.{Message, valid_id, Verdict, unsafe, duplicate, recorded, claim}
use assist.Base.{
  String, true, false, ◌&&◌, ◌≡◌, sym, ◌∙◌, subst, Option, none, some, List, [], ◌∷◌, same,
  if◌then◌else◌, if_true, if_false, inl, inr, ◌⊎◌, Bool-cases, Option-cases, arith,
}

-- The route dispatches what a claim records.
abbrev pub dispatch : Verdict → String × Message → List (String × Message) → List (String × Message)
dispatch recorded p ps = p ∷ ps
dispatch duplicate p ps = ps
dispatch unsafe p ps = ps

-- The messages dispatched for a sequence of posts, and the log after them.
unfoldable pub claim_all :
    List (String × Message) → Dict Message → List (String × Message) × Dict Message
unfolding claim
claim_all [] log = ([], log)
claim_all ((id, m) ∷ ps) log =
    let o = claim id m log in let rest = claim_all ps o.1 in (dispatch o.0 (id, m) rest.0, rest.1)

-- The first post with an id, if the id is valid.
abbrev pub first_post : String → List (String × Message) → Option Message
first_post i [] = none
first_post i ((id, m) ∷ ps) =
    let rest = first_post i ps in if same id i && valid_id id then some m else rest

abbrev pub sent_as : String → List (String × Message) → List Message
sent_as i [] = []
sent_as i ((id, m) ∷ ps) = let rest = sent_as i ps in if same id i then m ∷ rest else rest

abbrev pub or_first : Option Message → Option Message → Option Message
or_first (some m) o = some m
or_first none o = o

abbrev pub unless_known : Option Message → Option Message → List Message
unless_known (some m) o = []
unless_known none none = []
unless_known none (some m) = m ∷ []

-- What a claim comes to.
claim-cases :
    (id : String) (m : Message) (log : Dict Message)
    → ((valid_id id ≡ false) × (claim id m log ≡ (unsafe, log)))
      ⊎ (((old : Message) × (Dict.get id log ≡ some old) × (claim id m log ≡ (duplicate, log)))
          ⊎ ((valid_id id ≡ true)
              × (Dict.get id log ≡ none)
              × (claim id m log ≡ (recorded, Dict.put id m log))))
unfolding claim
claim-cases id m log = elim (Bool-cases (valid_id id)) [
  | inr h ↦ inl (h, if_false _ _ h)
  | inl h ↦ elim (Option-cases (Dict.get id log)) [
    | inr (old, e) ↦ inr (inl (old, e, if_true _ _ h ∙ ground (arith, e)))
    | inl e ↦ inr (inr (h, e, if_true _ _ h ∙ ground (arith, e)))
  ]
]

Once :
    String
    → String
    → Message
    → List (String × Message)
    → Dict Message
    → Verdict × Dict Message
    → Type 0
Once i id m ps log o =
    (Dict.get i (claim_all ps o.1).1 ≡ or_first (Dict.get i log) (first_post i ((id, m) ∷ ps)))
    × (sent_as i (dispatch o.0 (id, m) (claim_all ps o.1).0)
        ≡ unless_known (Dict.get i log) (first_post i ((id, m) ∷ ps)))

abbrev Kept : String → List (String × Message) → Dict Message → Type 0
Kept i ps log =
    (Dict.get i (claim_all ps log).1 ≡ or_first (Dict.get i log) (first_post i ps))
    × (sent_as i (claim_all ps log).0 ≡ unless_known (Dict.get i log) (first_post i ps))

unsafe-Once :
    (i id : String) (m : Message) (ps : List (String × Message)) (log : Dict Message)
    → valid_id id ≡ false
    → Kept i ps log
    → Once i id m ps log (unsafe, log)
unfolding Once
unsafe-Once i id m ps log h k = (ground (arith, h, k.0), ground (arith, h, k.1))

duplicate-Once :
    (i id : String) (m old : Message) (ps : List (String × Message)) (log : Dict Message)
    → Dict.get id log ≡ some old
    → Kept i ps log
    → Once i id m ps log (duplicate, log)
unfolding Once
duplicate-Once i id m old ps log h k = elim (Bool-cases (same id i)) [
  | inl e ↦
      let there : Dict.get i log ≡ some old =
        subst (λ j. Dict.get j log ≡ some old) (same→≡ id i e) h in
      (ground (arith, k.0, there), ground (arith, k.1, there))
  | inr e ↦ (ground (arith, e, k.0), ground (arith, e, k.1))
]

recorded-Once :
    (i id : String) (m : Message) (ps : List (String × Message)) (log : Dict Message)
    → valid_id id ≡ true
    → Dict.get id log ≡ none
    → Kept i ps (Dict.put id m log)
    → Once i id m ps log (recorded, Dict.put id m log)
unfolding Once
recorded-Once i id m ps log v h k = elim (Bool-cases (same id i)) [
  | inl e ↦
      let absent : Dict.get i log ≡ none = subst (λ j. Dict.get j log ≡ none) (same→≡ id i e) h in
      let now : Dict.get i (Dict.put id m log) ≡ some m = get-put id i m log ∙ if_true _ _ e in
      (ground (arith, k.0, now, absent, v, e), ground (arith, k.1, now, absent, v, e))
  | inr e ↦
      let as_before : Dict.get i (Dict.put id m log) ≡ Dict.get i log =
        get-put id i m log ∙ if_false _ _ e in
      (ground (arith, k.0, as_before, e), ground (arith, k.1, as_before, e))
]

-- For any id and any posts: the log's message of that id is the one it had, and otherwise that of
-- the first of the posts with it, if the id is valid. That first post is dispatched where the log
-- had no message of the id, and no other post with the id is.
pub claimed_once :
    (i : String) (ps : List (String × Message)) (log : Dict Message)
    → (Dict.get i (claim_all ps log).1 ≡ or_first (Dict.get i log) (first_post i ps))
      × (sent_as i (claim_all ps log).0 ≡ unless_known (Dict.get i log) (first_post i ps))
unfolding claim_all Once
claimed_once i [] log = (ground arith, ground arith)
claimed_once i ((id, m) ∷ ps) log =
    by_claim (claim-cases id m log) (claimed_once i ps log) (claimed_once i ps (Dict.put id m log))
  where
    by_claim :
        ((valid_id id ≡ false) × (claim id m log ≡ (unsafe, log)))
          ⊎ (((old : Message) × (Dict.get id log ≡ some old) × (claim id m log ≡ (duplicate, log)))
              ⊎ ((valid_id id ≡ true)
                  × (Dict.get id log ≡ none)
                  × (claim id m log ≡ (recorded, Dict.put id m log))))
        → Kept i ps log
        → Kept i ps (Dict.put id m log)
        → Once i id m ps log (claim id m log)
    by_claim (inl (h, e)) k l = subst (Once i id m ps log) (sym e) (unsafe-Once i id m ps log h k)
    by_claim (inr (inl (old, h, e))) k l =
        subst (Once i id m ps log) (sym e) (duplicate-Once i id m old ps log h k)
    by_claim (inr (inr (v, h, e))) k l =
        subst (Once i id m ps log) (sym e) (recorded-Once i id m ps log v h l)
