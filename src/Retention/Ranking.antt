-- ===== src/Retention/Ranking.antt =====
-- The ranking of the threads: in order, with nothing lost, and split where the prune cuts it.
use assist.Base.Order.{before_irrefl, before_trans, before_cotrans}
use assist.Retention.Prune.{older, insert, newest_first}
use assist.Base.{
  ℕ, zero, suc, ◌+◌, min, String, Bool, true, false, ◌≡◌, refl, sym, ap, ◌∙◌, subst, List, [], ◌∷◌,
  ◌++◌, length, take, drop, count_if, All, if◌then◌else◌, if_true, if_false, inl, inr, Bool-cases,
  arith,
}

older_cotrans : (a b c : String × ℕ) → older a c ≡ true → older b c ≡ false → older a b ≡ true
older_cotrans (s, m) (t, n) (u, o) h k = ground (arith, h, k, before_cotrans s t u)

older_asym : (a b : String × ℕ) → older a b ≡ true → older b a ≡ false
older_asym (s, m) (t, n) h = ground (arith, h, before_trans s t s, before_irrefl s)

-- None of the list is newer.
unfoldable pub NoneNewer : String × ℕ → List (String × ℕ) → Type 0
NoneNewer c ds = All (λ d. older c d ≡ false) ds

unfoldable pub Descending : List (String × ℕ) → Type 0
Descending [] = Unit
Descending (c ∷ cs) = NoneNewer c cs × Descending cs

further-NoneNewer :
    (c d : String × ℕ) (ds : List (String × ℕ))
    → older c d ≡ false
    → NoneNewer d ds
    → NoneNewer c ds
unfolding NoneNewer
further-NoneNewer c d [] h v = tt
further-NoneNewer c d (e ∷ ds) h v = (
  elim (Bool-cases (older c e)) [
    | inr k ↦ k
    | inl k ↦ absurd (ground (arith, h, older_cotrans c d e k v.0))
  ],
  further-NoneNewer c d ds h v.1,
)

insert-NoneNewer :
    (b c : String × ℕ) (ds : List (String × ℕ))
    → older b c ≡ false
    → NoneNewer b ds
    → NoneNewer b (insert c ds)
unfolding NoneNewer
insert-NoneNewer b c [] h v = (h, tt)
insert-NoneNewer b c (d ∷ ds) h v = elim (Bool-cases (older c d)) [
  | inl k ↦ subst (NoneNewer b) (sym (if_true _ _ k)) (v.0, insert-NoneNewer b c ds h v.1)
  | inr k ↦ subst (NoneNewer b) (sym (if_false _ _ k)) (h, (v.0, v.1))
]

insert-Descending :
    (c : String × ℕ) (ds : List (String × ℕ)) → Descending ds → Descending (insert c ds)
unfolding NoneNewer Descending
insert-Descending c [] v = (tt, tt)
insert-Descending c (d ∷ ds) v = elim (Bool-cases (older c d)) [
  | inl k ↦
      subst Descending (sym (if_true _ _ k))
        (insert-NoneNewer d c ds (older_asym c d k) v.0, insert-Descending c ds v.1)
  | inr k ↦
      subst Descending (sym (if_false _ _ k)) ((k, further-NoneNewer c d ds k v.0), (v.0, v.1))
]

pub newest_first-Descending : (cs : List (String × ℕ)) → Descending (newest_first cs)
unfolding newest_first Descending
newest_first-Descending [] = tt
newest_first-Descending (c ∷ cs) =
    insert-Descending c (newest_first cs) (newest_first-Descending cs)

count_if-insert :
    (p : String × ℕ → Bool) (c : String × ℕ) (ds : List (String × ℕ))
    → count_if p (insert c ds) ≡ count_if p (c ∷ ds)
count_if-insert p c [] = refl
count_if-insert p c (d ∷ ds) = ground (arith, count_if-insert p c ds)

pub count_if-newest_first :
    (p : String × ℕ → Bool) (cs : List (String × ℕ)) → count_if p (newest_first cs) ≡ count_if p cs
unfolding newest_first
count_if-newest_first p [] = refl
count_if-newest_first p (c ∷ cs) =
    count_if-insert p c (newest_first cs)
    ∙ ap (λ n. (if p c then 1 else 0) + n) (count_if-newest_first p cs)

pub take-NoneNewer :
    (n : ℕ) (cs : List (String × ℕ))
    → Descending cs
    → All (λ k. All (λ d. older k d ≡ false) (drop n cs)) (take n cs)
unfolding NoneNewer Descending
take-NoneNewer zero cs v = tt
take-NoneNewer (suc n) [] v = tt
take-NoneNewer (suc n) (c ∷ cs) v = (dropped n cs v.0, take-NoneNewer n cs v.1)
  where
    dropped :
        (n : ℕ) (ds : List (String × ℕ))
        → All (λ d. older c d ≡ false) ds
        → All (λ d. older c d ≡ false) (drop n ds)
    dropped zero ds h = h
    dropped (suc n) [] h = tt
    dropped (suc n) (d ∷ ds) h = dropped n ds h.1

pub count_if-take-drop :
    (p : String × ℕ → Bool) (n : ℕ) (cs : List (String × ℕ))
    → count_if p (take n cs) + count_if p (drop n cs) ≡ count_if p cs
count_if-take-drop p zero cs = omega arith
count_if-take-drop p (suc n) [] = refl
count_if-take-drop p (suc n) (c ∷ cs) = omega (arith, count_if-take-drop p n cs)

pub take-drop : (n : ℕ) (cs : List (String × ℕ)) → take n cs ++ drop n cs ≡ cs
take-drop zero cs = refl
take-drop (suc n) [] = refl
take-drop (suc n) (c ∷ cs) = ap (λ l. c ∷ l) (take-drop n cs)

pub length-take : (n : ℕ) (cs : List (String × ℕ)) → length (take n cs) ≡ min n (length cs)
length-take zero cs = omega arith
length-take (suc n) [] = omega arith
length-take (suc n) (c ∷ cs) = omega (arith, length-take n cs)
