-- ===== src/Queue/Tiers.antt =====
-- The two tiers of waiters as lists: what filtering, promotion and leaving do to identities.
use assist.Queue.Defs.{Waiter}
use assist.Queue.Acquire.{without, tail}
use assist.Queue.Control.{prefer}
use assist.Base.{
  ℕ, ◌+◌, ◌≤◌, ◌<◌, Bool, true, not, ◌≡◌, refl, List, [], ◌∷◌, map, ◌==◌, keep, count_if, All,
  arith,
}

-- How many waiters of a list have this identity.
abbrev pub occurrences : ℕ → List Waiter → ℕ
occurrences i = count_if (λ w. w.id == i)

pub occurrences_fresh :
    (n i : ℕ) (ws : List Waiter) → All (λ w. w.id < n) ws → n ≤ i → occurrences i ws ≡ 0
occurrences_fresh n i [] h le = refl
occurrences_fresh n i (w ∷ ws) h le = ground (arith, occurrences_fresh n i ws h.1 le)

pub occurrences-keep-le :
    (p : Waiter → Bool) (i : ℕ) (ws : List Waiter) → occurrences i (keep p ws) ≤ occurrences i ws
occurrences-keep-le p i [] = omega arith
occurrences-keep-le p i (w ∷ ws) = ground (arith, occurrences-keep-le p i ws)

pub occurrences-without : (i : ℕ) (ws : List Waiter) → occurrences i (without i ws) ≡ 0
unfolding without
occurrences-without i [] = refl
occurrences-without i (w ∷ ws) = ground (arith, occurrences-without i ws)

pub occurrences-prefer :
    (i : ℕ) (ws : List Waiter) → occurrences i (map prefer ws) ≡ occurrences i ws
occurrences-prefer i [] = refl
occurrences-prefer i (w ∷ ws) = ground (arith, occurrences-prefer i ws)

-- A filter and its complement share the occurrences out.
pub occurrences-split :
    (p : Waiter → Bool) (i : ℕ) (ws : List Waiter)
    → occurrences i (keep p ws) + occurrences i (keep (λ w. not (p w)) ws) ≡ occurrences i ws
occurrences-split p i [] = refl
occurrences-split p i (w ∷ ws) = ground (arith, occurrences-split p i ws)

pub occurrences-tail-le : (i : ℕ) (ws : List Waiter) → occurrences i (tail ws) ≤ occurrences i ws
occurrences-tail-le i [] = omega arith
occurrences-tail-le i (w ∷ ws) = ground arith

pub All-tail {κ} : (P : Waiter → Type κ) (ws : List Waiter) → All P ws → All P (tail ws)
All-tail P [] h = h
All-tail P (w ∷ ws) h = h.1

pub prefer-preferred : (ws : List Waiter) → All (λ w. w.user_priority ≡ true) (map prefer ws)
prefer-preferred [] = tt
prefer-preferred (w ∷ ws) = (refl, prefer-preferred ws)

pub prefer-below :
    (n : ℕ) (ws : List Waiter) → All (λ w. w.id < n) ws → All (λ w. w.id < n) (map prefer ws)
prefer-below n [] h = h
prefer-below n (w ∷ ws) h = (h.0, prefer-below n ws h.1)

pub below_mono : (n : ℕ) (ws : List Waiter) → All (λ w. w.id < n) ws → All (λ w. w.id < n + 1) ws
below_mono n [] h = h
below_mono n (w ∷ ws) h = (omega arith, below_mono n ws h.1)
