-- ===== src/Trust/Scorer/Sources.antt =====
-- `_dedupe_by_source` of trust/scorer.py: of each source one signal is kept, the severest.
use mdp2p.Py.Value.Laws.{as_key-ok}
use mdp2p.Prelude.{
  String, List, ◌≡◌, Option, false, true, sym, subst, some, Bool, ◌∙◌, ◌∷◌, if◌then◌else◌,
  Bool-cases, inr, inl, [], none, arith, ◌==◌, refl, eq_iff, some_injective, ap,
}
use mdp2p.Trust.Scorer.{best_of, keep_severest, Signal, severity_of}
use mdp2p.Dict.{Dict, Distinct}
use mdp2p.Trust.Policy.{Policy}
use mathlib.Core.List.{Memᴰ}
use mdp2p.Trust.Floats.{Floats, IsFloats}
use mdp2p.Dict.Laws.{lookup-insert, Distinct-insert, lookup-insert_self}
use mdp2p.Dict.Every.{Every, Every-insert}
use mdp2p.Dict.{lookup, insert, Distinct}
use mdp2p.Py.Value.{str, as_key}
use mdp2p.Py.Result.{ok, >>=-eq-ok, ok_injective}

module _ (f : Floats) (policy : Policy f) where
  -- The signal that is kept of the source of another, and is not less severe than it
  pub record IsCovered (best : Dict Signal) (s : Signal) : Type 0 where
    pub key : String
    pub source : s.source_pubkey ≡ str key
    pub kept : Signal
    pub kept_at : lookup key best ≡ some kept
    pub severest :
        (x y : f.Float)
        → severity_of f policy kept.verdict ≡ ok x
        → severity_of f policy s.verdict ≡ ok y
        → f.lt x y ≡ false

  -- The signals that are kept stand under their sources, and are among those given.
  abbrev pub IsRetained : (Signal → Type 0) → String → Signal → Type 0
  IsRetained P key s = (s.source_pubkey ≡ str key) × P s

  keep_severest-Every :
      (P : Signal → Type 0) (best : Dict Signal) (key : String) (s : Signal) (o : Option Signal)
      (next : Dict Signal)
      → keep_severest f policy best key s o ≡ ok next
      → IsRetained P key s
      → Every (IsRetained P) best × Distinct best
      → Every (IsRetained P) next × Distinct next
  unfolding keep_severest
  keep_severest-Every P best key s none next e new (all, once) =
      subst (λ d. Every (IsRetained P) d × Distinct d) (ok_injective _ _ e)
        (Every-insert (IsRetained P) key s best all new, Distinct-insert key s best once)
  keep_severest-Every P best key s (some current) next e new (all, once) =
      let (x, _, e₁) = >>=-eq-ok (severity_of f policy s.verdict) _ e in
      let (y, _, e₂) = >>=-eq-ok (severity_of f policy current.verdict) _ e₁ in
      subst (λ d. Every (IsRetained P) d × Distinct d) (ok_injective _ _ e₂) (choose (f.lt y x))
    where
      choose :
          (b : Bool)
          → Every (IsRetained P) (if b then insert key s best else best)
            × Distinct (if b then insert key s best else best)
      choose true =
          (Every-insert (IsRetained P) key s best all new, Distinct-insert key s best once)
      choose false = (all, once)

  pub best_of-Every :
      (P : Signal → Type 0) (signals : List Signal) (best final : Dict Signal)
      → best_of f policy best signals ≡ ok final
      → ((s : Signal) → Memᴰ s signals → P s)
      → Every (IsRetained P) best × Distinct best
      → Every (IsRetained P) final × Distinct final
  unfolding best_of
  best_of-Every P [] best final e given h =
      subst (λ d. Every (IsRetained P) d × Distinct d) (ok_injective _ _ e) h
  best_of-Every P (s ∷ signals) best final e given h =
      let (key, at, e₁) = >>=-eq-ok (as_key s.source_pubkey) _ e in
      let (next, step, e₂) = >>=-eq-ok (keep_severest f policy best key s (lookup key best)) _ e₁ in
      best_of-Every P signals next final e₂ (λ t m. given t (Memᴰ.tail m))
        (keep_severest-Every P best key s (lookup key best) next step
          (as_key-ok s.source_pubkey key at, given s (Memᴰ.head refl)) h)

  module _ (fl : IsFloats f) where
    -- A signal that is severer than the one it replaces leaves what that one covered covered.
    replaced :
        (s t : Signal) (x y : f.Float)
        → severity_of f policy s.verdict ≡ ok x
        → severity_of f policy t.verdict ≡ ok y
        → f.lt y x ≡ true
        → (other : Signal)
        → ((a b : f.Float)
            → severity_of f policy t.verdict ≡ ok a
            → severity_of f policy other.verdict ≡ ok b
            → f.lt a b ≡ false)
        → (a b : f.Float) → severity_of f policy s.verdict ≡ ok a
        → severity_of f policy other.verdict ≡ ok b
        → f.lt a b ≡ false
    replaced s t x y s_at t_at less other covered a b a_at b_at =
        let same : x ≡ a = ok_injective x a (sym s_at ∙ a_at) in
        elim (Bool-cases (f.lt a b)) [
          | inr not_less ↦ not_less
          | inl yes_less ↦
              let below : f.lt y b ≡ true =
                fl.lt_trans y a b (subst (λ z. f.lt y z ≡ true) same less) yes_less in
              let not_below : f.lt y b ≡ false = covered y b t_at b_at in
              absurd (ground (arith, below, not_below))
        ]

    irreflexive :
        (s : Signal) (a b : f.Float)
        → severity_of f policy s.verdict ≡ ok a
        → severity_of f policy s.verdict ≡ ok b
        → f.lt a b ≡ false
    irreflexive s a b a_at b_at =
        subst (λ z. f.lt a z ≡ false) (ok_injective a b (sym a_at ∙ b_at)) (fl.lt_irrefl a)

    elsewhere :
        (key k : String) (s kept : Signal) (best : Dict Signal)
        → lookup key best ≡ none
        → lookup k best ≡ some kept
        → lookup k (insert key s best) ≡ some kept
    elsewhere key k s kept best gone at = ground (arith, lookup-insert key k s best, eq_iff key k)

    taken :
        (best : Dict Signal) (key : String) (s : Signal)
        → s.source_pubkey ≡ str key
        → IsCovered (insert key s best) s
    taken best key s source = record {
      key = key;
      source = source;
      kept = s;
      kept_at = lookup-insert_self key s best;
      severest = irreflexive s;
    }

    left :
        (best : Dict Signal) (key : String) (s current : Signal) (x y : f.Float)
        → s.source_pubkey ≡ str key
        → lookup key best ≡ some current
        → severity_of f policy s.verdict ≡ ok x
        → severity_of f policy current.verdict ≡ ok y
        → f.lt y x ≡ false
        → IsCovered best s
    left best key s current x y source at x_at y_at less = record {
      key = key;
      source = source;
      kept = current;
      kept_at = at;
      severest = λ a b a_at b_at.
          subst (λ z. f.lt z b ≡ false) (ok_injective y a (sym y_at ∙ a_at))
            (subst (λ z. f.lt y z ≡ false) (ok_injective x b (sym x_at ∙ b_at)) less);
    }

    kept_or_replaced :
        (best : Dict Signal) (key : String) (s current : Signal) (x y : f.Float)
        → lookup key best ≡ some current
        → severity_of f policy s.verdict ≡ ok x
        → severity_of f policy current.verdict ≡ ok y
        → f.lt y x ≡ true
        → (t : Signal) → IsCovered best t
        → IsCovered (insert key s best) t
    kept_or_replaced best key s current x y at x_at y_at less t c =
        elim (Bool-cases (key == c.key)) [
          | inl same ↦
              let e : key ≡ c.key = (eq_iff key c.key).0 same in
              let current_kept : current ≡ c.kept =
                some_injective current c.kept (sym at ∙ ap (λ k. lookup k best) e ∙ c.kept_at) in
              record {
                key = c.key;
                source = c.source;
                kept = s;
                kept_at =
                    subst (λ k. lookup k (insert key s best) ≡ some s) e
                      (lookup-insert_self key s best);
                severest = replaced s current x y x_at y_at less t (
                    subst
                      (λ k.
                        (a b : f.Float)
                        → severity_of f policy k.verdict ≡ ok a
                        → severity_of f policy t.verdict ≡ ok b
                        → f.lt a b ≡ false)
                      (sym current_kept) c.severest);
              }
          | inr other ↦ record {
            key = c.key;
            source = c.source;
            kept = c.kept;
            kept_at = ground (arith, lookup-insert key c.key s best, c.kept_at);
            severest = c.severest;
          }
        ]

    keep_severest-IsCovered :
        (best next : Dict Signal) (key : String) (s : Signal) (o : Option Signal)
        → s.source_pubkey ≡ str key
        → lookup key best ≡ o
        → keep_severest f policy best key s o ≡ ok next
        → IsCovered next s × ((t : Signal) → IsCovered best t → IsCovered next t)
    unfolding keep_severest
    keep_severest-IsCovered best next key s none source at e =
        subst (λ d. IsCovered d s × ((t : Signal) → IsCovered best t → IsCovered d t))
          (ok_injective _ _ e)
          (
            taken best key s source,
            λ t c. record {
              key = c.key;
              source = c.source;
              kept = c.kept;
              kept_at = elsewhere key c.key s c.kept best at c.kept_at;
              severest = c.severest;
            },
          )
    keep_severest-IsCovered best next key s (some current) source at e =
        let (x, x_at, e₁) = >>=-eq-ok (severity_of f policy s.verdict) _ e in
        let (y, y_at, e₂) = >>=-eq-ok (severity_of f policy current.verdict) _ e₁ in
        subst (λ d. IsCovered d s × ((t : Signal) → IsCovered best t → IsCovered d t))
          (ok_injective _ _ e₂) (choose x y x_at y_at (f.lt y x) refl)
      where
        choose :
            (x y : f.Float)
            → severity_of f policy s.verdict ≡ ok x
            → severity_of f policy current.verdict ≡ ok y
            → (b : Bool) → f.lt y x ≡ b
            → IsCovered (if b then insert key s best else best) s
              × ((t : Signal)
                  → IsCovered best t
                  → IsCovered (if b then insert key s best else best) t)
        choose x y x_at y_at true less = (
          taken best key s source,
          λ t c. kept_or_replaced best key s current x y at x_at y_at less t c,
        )
        choose x y x_at y_at false less =
            (left best key s current x y source at x_at y_at less, λ t c. c)

    pub best_of-IsCovered :
        (signals : List Signal) (best final : Dict Signal)
        → best_of f policy best signals ≡ ok final
        → ((t : Signal) → IsCovered best t → IsCovered final t)
          × ((s : Signal) → Memᴰ s signals → IsCovered final s)
    unfolding best_of
    best_of-IsCovered [] best final e =
        (λ t c. subst (λ d. IsCovered d t) (ok_injective _ _ e) c, λ s m. elim m [ ])
    best_of-IsCovered (s ∷ signals) best final e =
        let (key, at, e₁) = >>=-eq-ok (as_key s.source_pubkey) _ e in
        let (next, step, e₂) =
          >>=-eq-ok (keep_severest f policy best key s (lookup key best)) _ e₁ in
        let (new, old) =
          keep_severest-IsCovered best next key s (lookup key best)
            (as_key-ok s.source_pubkey key at) refl step in
        let (later, listed) = best_of-IsCovered signals next final e₂ in
        (λ t c. later t (old t c), λ t m. among t m (later s new) listed)
      where
        among :
            (t : Signal)
            → Memᴰ t (s ∷ signals)
            → IsCovered final s
            → ((u : Signal) → Memᴰ u signals → IsCovered final u)
            → IsCovered final t
        among t (Memᴰ.head same) first rest = subst (IsCovered final) (sym same) first
        among t (Memᴰ.tail m) first rest = rest t m
