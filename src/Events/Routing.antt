-- ===== src/Events/Routing.antt =====
-- A message goes to the oldest of the subscriptions that match its sender.
use assist.Base.Order.{before, before_trans, before_cotrans}
use assist.Records.{Root, all}
use assist.Events.Defs.{Subscription, subscriptions, age_key, earliest, matches, chosen, route}
use assist.Base.{
  String, Bool, true, false, ◌≡◌, refl, sym, ap, subst, Option, none, some, List, [], ◌∷◌, ◌++◌,
  append_assoc, append-nil, keep, All, All-append, if◌then◌else◌,
}

-- A list, split at one of its elements.
pub record Oldest (ss : List Subscription) (s : Subscription) : Type 0 where
  pub front : List Subscription
  pub back : List Subscription
  pub split : ss ≡ front ++ s ∷ back
  pub younger : All (λ x. before (age_key s) (age_key x) ≡ true) front
  pub least : All (λ x. before (age_key x) (age_key s) ≡ false) back

OlderThan : String → List Subscription → Type 0
OlderThan k ss = All (λ x. before k (age_key x) ≡ true) ss

NotBefore : String → List Subscription → Type 0
NotBefore k ss = All (λ x. before (age_key x) k ≡ false) ss

still-OlderThan :
    (s t : String) (ss : List Subscription) → before s t ≡ true → OlderThan t ss → OlderThan s ss
unfolding OlderThan
still-OlderThan s t [] h v = tt
still-OlderThan s t (x ∷ ss) h v =
    (before_trans s t (age_key x) h v.0, still-OlderThan s t ss h v.1)

seen-OlderThan :
    (s t : String) (ss : List Subscription) → before s t ≡ true → NotBefore t ss → OlderThan s ss
unfolding OlderThan NotBefore
seen-OlderThan s t [] h v = tt
seen-OlderThan s t (x ∷ ss) h v =
    (before_cotrans s (age_key x) t h v.0, seen-OlderThan s t ss h v.1)

-- The walk: `front` is younger than the best so far, and nothing seen since is older.
earliest-Oldest :
    (front : List Subscription) (best : Subscription) (seen ss : List Subscription)
    → OlderThan (age_key best) front
    → NotBefore (age_key best) seen
    → Oldest (front ++ (best ∷ (seen ++ ss))) (earliest best ss)
unfolding earliest OlderThan NotBefore
earliest-Oldest front best seen [] f h = record {
  front = front;
  back = seen;
  split = ap (λ l. front ++ (best ∷ l)) (append-nil seen);
  younger = f;
  least = h;
}
earliest-Oldest front best seen (s ∷ ss) f h =
    by_age _ refl (λ k g. earliest-Oldest (front ++ (best ∷ seen)) s [] ss g tt)
      (λ k. earliest-Oldest front best (seen ++ s ∷ []) ss f (All-append _ seen (s ∷ []) h (k, tt)))
  where
    by_age :
        (b : Bool)
        → before (age_key s) (age_key best) ≡ b
        → (b ≡ true
            → OlderThan (age_key s) (front ++ (best ∷ seen))
            → Oldest ((front ++ (best ∷ seen)) ++ (s ∷ ss)) (earliest s ss))
        → (before (age_key s) (age_key best) ≡ false
            → Oldest (front ++ (best ∷ ((seen ++ (s ∷ [])) ++ ss))) (earliest best ss))
        → Oldest
            (front ++ (best ∷ (seen ++ (s ∷ ss))))
            (if b then earliest s ss else earliest best ss)
    by_age true e new old =
        subst (λ l. Oldest l (earliest s ss)) (append_assoc front (best ∷ seen) (s ∷ ss))
          (new refl (
            All-append _ front (best ∷ seen) (still-OlderThan _ _ front e f)
              (e, seen-OlderThan _ _ seen e h)))
    by_age false e new old =
        subst (λ l. Oldest (front ++ (best ∷ l)) (earliest best ss)) (append_assoc seen (s ∷ []) ss)
          (old e)

module _ (search : String → String → Option Bool) where
  -- What `route` answers: nothing if no subscription of any thread matches the sender, and otherwise
  -- one of those that do. The matching ones in front of it in the store's order are younger by
  -- their `created_at`, and none behind it is older.
  abbrev pub Routed : String → Root Subscription → Option Subscription → Type 0
  Routed sender root none = keep (matches search sender) (all subscriptions root) ≡ []
  Routed sender root (some s) = Oldest (keep (matches search sender) (all subscriptions root)) s

  -- `route` answers nothing if no subscription of any thread matches the sender, and otherwise the
  -- matching one that is oldest by its `created_at`, the first of those if there are several.
  pub route-Routed :
      (sender : String) (root : Root Subscription) → Routed sender root (route search sender root)
  unfolding route OlderThan NotBefore
  route-Routed sender root = by_matches (keep (matches search sender) (all subscriptions root)) refl
    where
      by_matches :
          (ss : List Subscription)
          → keep (matches search sender) (all subscriptions root) ≡ ss
          → Routed sender root (chosen search ss)
      by_matches [] e = e
      by_matches (s ∷ ss) e =
          subst (λ l. Oldest l (earliest s ss)) (sym e) (earliest-Oldest [] s [] ss tt tt)
