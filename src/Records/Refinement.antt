-- ===== src/Records/Refinement.antt =====
-- The store refines a journal: a list of records for each thread.
use assist.Base.Dict
use assist.Base.Dict.{Dict, get-put, same_self, same→≡}
use assist.Runs.{is_segment}
use assist.Records.Store.{
  Keyed, Root, Failure, not_found, cap_exceeded, raised, Outcome, ok, failed, held, records_of,
  write, settled, at_cap, add, changed, saved, update, remove,
}
use assist.Base.{
  ℕ, String, Bool, not, ◌≡◌, refl, sym, ap, ◌∙◌, subst, Option, none, some, List, [], ◌∷◌, ◌++◌,
  same, keep, length, ◌==◌, if◌then◌else◌, if_true, if_false, inl, inr, Bool-cases, arith,
}

module _ {T : Type 0} (k : Keyed T) where
  pub data Call : Type 0 where
    append : T → Call
    change : String → String → (T → Option T) → Call
    drop_all : String → String → Call

  -- The store's answer to a call, forgetting what it returns: what it fails with, if it does.
  abbrev pub error_of {ℓ} : {A : Type ℓ} → Outcome A → Option Failure
  error_of (ok a) = none
  error_of (failed e) = some e

  -- A call on the store whose limit is `limit`: what it fails with, if it does, and the files after it.
  unfoldable pub perform : ℕ → Bool → Call → Root T → Option Failure × Root T
  perform limit writes (append rec) root =
      let o = add k limit writes rec root in (error_of o.0, o.1)
  perform limit writes (change tid rid fn) root =
      let o = update k writes tid rid fn root in (error_of o.0, o.1)
  perform limit writes (drop_all tid rid) root =
      let o = remove k writes tid rid root in (error_of o.0, o.1)

  -- The journal: each thread's records.
  abbrev pub Journal : Type 0
  Journal = String → List T

  abbrev pub at : String → List T → Journal → Journal
  at tid rs j t = if same tid t then rs else j t

  -- The first record with the id, replaced by what the function makes of it.
  abbrev pub replace_first : String → (T → Option T) → List T → List T
  replace_first rid fn [] = []
  replace_first rid fn (r ∷ rs) =
      let rest = replace_first rid fn rs in
      if same (k.id_of r) rid then elim (fn r) [ none ↦ r ∷ rs | some r' ↦ r' ∷ rs ] else r ∷ rest

  -- What a call that succeeds does to the journal.
  abbrev pub intended : Call → Journal → Journal
  intended (append rec) j = at (k.thread_of rec) (j (k.thread_of rec) ++ rec ∷ []) j
  intended (change tid rid fn) j = at tid (replace_first rid fn (j tid)) j
  intended (drop_all tid rid) j = at tid (keep (λ r. not (same (k.id_of r) rid)) (j tid)) j

  -- A call that fails changes no file; one that succeeds does to the journal what it says.
  abbrev pub Refines : Journal → Journal → Call → Option Failure → Type 0
  Refines before after c (some e) = (tid : String) → after tid ≡ before tid
  Refines before after c none = (tid : String) → after tid ≡ intended c before tid

  abbrev pub view : Root T → Journal
  view root tid = records_of k tid root

  -- What a method returned and left fulfils the call.
  abbrev pub Fulfils {ℓ} : {A : Type ℓ} → Root T → Call → Outcome A × Root T → Type 0
  Fulfils root c o = Refines (view root) (view o.1) c (error_of o.0)

  pub put-view :
      (tid : String) (rs : List T) (root : Root T) (t : String)
      → view (Dict.put tid (some rs) root) t ≡ at tid rs (view root) t
  put-view tid rs root t = ap (held k) (get-put tid t (some rs) root) ∙ ground arith

  pub write-some :
      (writes : Bool) (tid : String) (rs : List T) (root root' : Root T)
      → write k writes tid rs root ≡ some root'
      → root' ≡ Dict.put tid (some rs) root
  unfolding write
  write-some writes tid rs root root' e = ground (arith, e)

  settled-Fulfils {ℓ} :
      {A : Type ℓ} (a : A) (writes : Bool) (tid : String) (rs : List T) (root : Root T) (c : Call)
      → ((t : String) → at tid rs (view root) t ≡ intended c (view root) t)
      → Fulfils root c (settled k a root (write k writes tid rs root))
  settled-Fulfils a writes tid rs root c h = by_write (write k writes tid rs root) refl
    where
      by_write :
          (w : Option (Root T))
          → write k writes tid rs root ≡ w
          → Fulfils root c (settled k a root w)
      by_write none e = λ t. refl
      by_write (some root') e = λ t.
          ap (λ r. view r t) (write-some writes tid rs root root' e) ∙ put-view tid rs root t ∙ h t

  -- What `changed` gives is the list with the first match replaced.
  changed-replace :
      (rid : String) (fn : T → Option T) (rs : List T) (p : T × List T)
      → changed k rid fn rs ≡ ok p
      → p.1 ≡ replace_first rid fn rs
  changed-replace rid fn [] p e = absurd (cc e)
  changed-replace rid fn (r ∷ rs) p e =
      by_rest (changed k rid fn rs) refl (changed-replace rid fn rs) e
    where
      by_rest :
          (o : Outcome (T × List T))
          → changed k rid fn rs ≡ o
          → ((q : T × List T) → changed k rid fn rs ≡ ok q → q.1 ≡ replace_first rid fn rs)
          → (if same (k.id_of r) rid
              then elim (fn r) [ none ↦ failed raised | some r' ↦ ok (r', r' ∷ rs) ]
              else elim o [ ok p ↦ ok (p.0, r ∷ p.1) | failed e ↦ failed e ])
            ≡ ok p
          → p.1 ≡ replace_first rid fn (r ∷ rs)
      by_rest (failed x) f ih g = ground (arith, g)
      by_rest (ok q) f ih g = ground (arith, g, ih q f)

  refused {ℓ} :
      (A : Type ℓ) (root : Root T) (c : Call) (e : Failure)
      → Fulfils {A = A} root c (failed e, root)
  refused A root c e = λ t. refl

  -- The store refines the journal: whatever a call is and whatever writes fail, a call that fails
  -- changes no thread's records, and one that succeeds changes those of its own thread as it says.
  pub perform-Refines :
      (limit : ℕ) (writes : Bool) (c : Call) (root : Root T)
      → Refines (view root) (view (perform limit writes c root).1) c (perform limit writes c root).0
  unfolding perform add update remove
  perform-Refines limit writes (append rec) root =
      elim (Bool-cases (is_segment (k.thread_of rec))) [
        | inr s ↦ subst F (sym (if_true _ _ (ap not s))) (refused T root (append rec) not_found)
        | inl s ↦
            subst F (sym (if_false _ _ (ap not s)))
              (elim (Bool-cases (at_cap k limit (records_of k (k.thread_of rec) root))) [
                | inl f ↦ subst F (sym (if_true _ _ f)) (refused T root (append rec) cap_exceeded)
                | inr f ↦
                    subst F (sym (if_false _ _ f))
                      (settled-Fulfils rec writes (k.thread_of rec) _ root (append rec) (λ t. refl))
              ])
      ]
    where
      F : Outcome T × Root T → Type 0
      F = Fulfils root (append rec)
  perform-Refines limit writes (change tid rid fn) root = elim (Bool-cases (is_segment tid)) [
    | inr s ↦ subst F (sym (if_true _ _ (ap not s))) (refused T root (change tid rid fn) not_found)
    | inl s ↦
        subst F (sym (if_false _ _ (ap not s)))
          (done (changed k rid fn (records_of k tid root)) refl)
  ]
    where
      F : Outcome T × Root T → Type 0
      F = Fulfils root (change tid rid fn)

      done :
          (o : Outcome (T × List T))
          → changed k rid fn (records_of k tid root) ≡ o
          → F (saved k writes tid root o)
      done (failed e) p = λ t. refl
      done (ok (r, rs)) p =
          settled-Fulfils r writes tid rs root (change tid rid fn)
            (λ t. ap (λ l. at tid l (view root) t) (changed-replace rid fn _ (r, rs) p))
  perform-Refines limit writes (drop_all tid rid) root = elim (Bool-cases (is_segment tid)) [
    | inr s ↦
        subst F (sym (if_true _ _ (ap not s)))
          (refused (Unit {0}) root (drop_all tid rid) not_found)
    | inl s ↦
        subst F (sym (if_false _ _ (ap not s)))
          (elim (Bool-cases (length kept == length (records_of k tid root))) [
            | inl f ↦
                subst F (sym (if_true _ _ f)) (refused (Unit {0}) root (drop_all tid rid) not_found)
            | inr f ↦
                subst F (sym (if_false _ _ f))
                  (settled-Fulfils tt writes tid _ root (drop_all tid rid) (λ t. refl))
          ])
  ]
    where
      kept : List T
      kept = keep (λ r. not (same (k.id_of r) rid)) (records_of k tid root)

      F : Outcome {0} Unit × Root T → Type 0
      F = Fulfils root (drop_all tid rid)
