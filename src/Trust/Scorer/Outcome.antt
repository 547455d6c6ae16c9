-- ===== src/Trust/Scorer/Outcome.antt =====
-- `score_content` of trust/scorer.py: what a score is made of.
use mdp2p.Dict.Members.{lookup→Mem, Mem→lookup, Every-tail}
use mdp2p.Trust.Scorer.Sources.{best_of-Every, IsCovered, best_of-IsCovered, IsRetained}
use mdp2p.Dict.Every.{Every, Every-empty}
use mdp2p.Py.Value.Laws.{as_key-ok}
use mdp2p.Trust.Policy.{Policy}
use mdp2p.Trust.Scorer.{
  SignalContribution, ℤ, contribution_of, Signal, add_up, weight_for, severity_of, time_decay,
  ScoreResult, score_content, dedupe_by_source, decide, best_of,
}
use mdp2p.Prelude.{
  List, ◌∷◌, [], ◌≢◌, ◌≡◌, subst, sym, refl, false, none, some, ◌∙◌, String, arith, eq_refl, ap,
}
use mathlib.Core.List.{Memᴰ}
use mdp2p.Trust.Floats.{Floats, IsFloats}
use mdp2p.Dict.{lookup, Distinct, values, Dict}
use mdp2p.Py.Value.{str, as_key, Fields}
use mdp2p.Py.Result.{ok, >>=-eq-ok, ok_injective}

module _ (f : Floats) where
  -- The sum from the left, as `+=` makes it
  unfoldable pub sum_from : f.Float → List (SignalContribution f) → f.Float
  sum_from total [] = total
  sum_from total (c ∷ cs) = sum_from (f.add total c.contribution) cs

  -- No two contributions are of the same source.
  unfoldable pub HasDistinctSources : List (SignalContribution f) → Type 0
  HasDistinctSources [] = Unit
  HasDistinctSources (c ∷ cs) =
      ((d : SignalContribution f) → Memᴰ d cs → c.source_pubkey ≢ d.source_pubkey)
      × HasDistinctSources cs

  module _ (store : Fields) (policy : Policy f) (now : ℤ) where
    -- What a contribution is, for the signal that it comes from
    pub record IsContribution (s : Signal) (c : SignalContribution f) : Type 0 where
      pub source : s.source_pubkey ≡ str c.source_pubkey
      pub verdict : c.verdict ≡ s.verdict
      pub weight : weight_for f c.source_pubkey store policy ≡ ok c.weight
      pub severity : severity_of f policy s.verdict ≡ ok c.severity
      pub decay : time_decay f s.timestamp now policy.decay_half_life_days ≡ ok c.decay
      pub product : c.contribution ≡ f.mul (f.mul c.weight c.severity) c.decay

    contribution_of-IsContribution :
        (s : Signal) (c : SignalContribution f)
        → contribution_of f store policy now s ≡ ok c
        → IsContribution s c
    unfolding contribution_of
    contribution_of-IsContribution s c e =
        let (key, key_at, e₁) = >>=-eq-ok (as_key s.source_pubkey) _ e in
        let (weight, weight_at, e₂) = >>=-eq-ok (weight_for f key store policy) _ e₁ in
        let (severity, severity_at, e₃) = >>=-eq-ok (severity_of f policy s.verdict) _ e₂ in
        let (decay, decay_at, e₄) =
          >>=-eq-ok (time_decay f s.timestamp now policy.decay_half_life_days) _ e₃ in
        subst (IsContribution s) (ok_injective _ _ e₄) record {
          source = as_key-ok s.source_pubkey key key_at;
          verdict = refl;
          weight = weight_at;
          severity = severity_at;
          decay = decay_at;
          product = refl;
        }

    -- Two lists, element by element
    pub data AllContribute : List Signal → List (SignalContribution f) → Type 0 where
      none_left : AllContribute [] []
      one_more :
          {s : Signal} {c : SignalContribution f} {signals : List Signal}
          {cs : List (SignalContribution f)}
          → IsContribution s c
          → AllContribute signals cs
          → AllContribute (s ∷ signals) (c ∷ cs)

    add_up-AllContribute :
        (total : f.Float) (signals : List Signal) (score : f.Float)
        (cs : List (SignalContribution f))
        → add_up f store policy now total signals ≡ ok (score, cs)
        → AllContribute signals cs × (score ≡ sum_from total cs)
    unfolding add_up sum_from
    add_up-AllContribute total [] score cs e =
        let same = ok_injective _ _ e in
        subst (λ r. AllContribute [] r.1 × (r.0 ≡ sum_from total r.1)) same (none_left, refl)
    add_up-AllContribute total (s ∷ signals) score cs e =
        let (c, c_at, e₁) = >>=-eq-ok (contribution_of f store policy now s) _ e in
        let (rest, rest_at, e₂) =
          >>=-eq-ok (add_up f store policy now (f.add total c.contribution) signals) _ e₁ in
        let (all, summed) =
          add_up-AllContribute (f.add total c.contribution) signals rest.0 rest.1 rest_at in
        subst (λ r. AllContribute (s ∷ signals) r.1 × (r.0 ≡ sum_from total r.1))
          (ok_injective _ _ e₂) (one_more (contribution_of-IsContribution s c c_at) all, summed)

    contributed :
        (signals : List Signal) (cs : List (SignalContribution f))
        → AllContribute signals cs
        → (c : SignalContribution f) → Memᴰ c cs
        → (s : Signal) × Memᴰ s signals × IsContribution s c
    contributed [] [] all c m = elim m [ ]
    contributed [] (d ∷ cs) all c m = elim all [ ]
    contributed (s ∷ signals) [] all c m = elim all [ ]
    contributed (s ∷ signals) (d ∷ cs) (one_more one all) c (Memᴰ.head same) =
        (s, Memᴰ.head refl, subst (IsContribution s) (sym same) one)
    contributed (s ∷ signals) (d ∷ cs) (one_more one all) c (Memᴰ.tail m) =
        let (t, t_in, is) = contributed signals cs all c m in (t, Memᴰ.tail t_in, is)

    contributes :
        (signals : List Signal) (cs : List (SignalContribution f))
        → AllContribute signals cs
        → (s : Signal) → Memᴰ s signals
        → (c : SignalContribution f) × Memᴰ c cs × IsContribution s c
    contributes [] cs all s m = elim m [ ]
    contributes (t ∷ signals) [] all s m = elim all [ ]
    contributes (t ∷ signals) (c ∷ cs) (one_more one all) s (Memᴰ.head same) =
        (c, Memᴰ.head refl, subst (λ x. IsContribution x c) (sym same) one)
    contributes (t ∷ signals) (c ∷ cs) (one_more one all) s (Memᴰ.tail m) =
        let (d, d_in, is) = contributes signals cs all s m in (d, Memᴰ.tail d_in, is)

    -- The signals that are kept of distinct sources contribute for distinct sources.
    HasDistinctSources-values :
        (P : Signal → Type 0) (best : Dict Signal) (cs : List (SignalContribution f))
        → Distinct best
        → Every (IsRetained f policy P) best
        → AllContribute (values best) cs
        → HasDistinctSources cs
    unfolding HasDistinctSources values
    HasDistinctSources-values P [] [] once all each = tt
    HasDistinctSources-values P [] (c ∷ cs) once all each = elim each [ ]
    HasDistinctSources-values P ((k, s) ∷ best) [] once all each = elim each [ ]
    HasDistinctSources-values P ((k, s) ∷ best) (c ∷ cs) once all (one_more one each) =
        let rest = Every-tail (IsRetained f policy P) k s best once all in
        (
          λ d m same.
              let (t, t_in, is) = contributed (values best) cs each d m in
              let (j, at) = Mem→lookup t best once.1 t_in in
              let source = (rest j t at).0 in
              let first = (all k s (lookup_first k s best)).0 in
              let k_is : k ≡ c.source_pubkey = str_injective (sym first ∙ one.source) in
              let j_is : j ≡ d.source_pubkey = str_injective (sym source ∙ is.source) in
              none≢some (sym once.0 ∙ ap (λ i. lookup i best) (k_is ∙ same ∙ sym j_is) ∙ at),
          HasDistinctSources-values P best cs once.1 rest each,
        )
      where
        none≢some : {A : Type 0} {a : A} {B : Type 0} → none ≡ some a → B
        none≢some e = cc

        str_injective : {a b : String} → str a ≡ str b → a ≡ b
        str_injective e = cc

        lookup_first : (k : String) (s : Signal) (d : Dict Signal) → lookup k ((k, s) ∷ d) ≡ some s
        lookup_first k s d = unfold lookup in ground (arith, eq_refl k)

    -- A signal that counts: a contribution of its source that is not less severe
    pub record IsCounted (cs : List (SignalContribution f)) (s : Signal) : Type 0 where
      pub by : SignalContribution f
      pub by_in : Memᴰ by cs
      pub source : s.source_pubkey ≡ str by.source_pubkey
      pub severest :
          (y : f.Float) → severity_of f policy s.verdict ≡ ok y → f.lt by.severity y ≡ false

    pub record IsScore (signals : List Signal) (result : ScoreResult f) : Type 0 where
      pub score : result.score ≡ sum_from (f.tenths 0) result.breakdown
      pub decision : result.decision ≡ decide f result.score policy
      pub distinct : HasDistinctSources result.breakdown
      pub sound :
          (c : SignalContribution f)
          → Memᴰ c result.breakdown
          → (s : Signal) × Memᴰ s signals × IsContribution s c
      pub complete : (s : Signal) → Memᴰ s signals → IsCounted result.breakdown s

    module _ (fl : IsFloats f) where
      counted :
          (best : Dict Signal) (cs : List (SignalContribution f)) (s : Signal)
          → Every (IsRetained f policy (λ t. Unit)) best
          → AllContribute (values best) cs
          → IsCovered f policy best s
          → IsCounted cs s
      counted best cs s all each c =
          let (by, by_in, is) =
            contributes (values best) cs each c.kept (lookup→Mem c.key c.kept best c.kept_at) in
          record {
            by = by;
            by_in = by_in;
            source = c.source ∙ sym (all c.key c.kept c.kept_at).0 ∙ is.source;
            severest = λ y at. c.severest by.severity y is.severity at;
          }

      -- Whatever signals a score is made of: it is the sum of the contributions that it shows, from 0.0
      -- on in their order, each of a given signal and the product of the source's weight, the verdict's
      -- severity and the decay; no source contributes twice; every signal given has a contribution of
      -- its source that is not less severe; and the decision is the one for the score.
      pub score_content-IsScore :
          (signals : List Signal) (result : ScoreResult f)
          → score_content f store policy now signals ≡ ok result
          → IsScore signals result
      unfolding score_content dedupe_by_source
      score_content-IsScore signals result e =
          let (deduped, kept_at, e₁) = >>=-eq-ok (dedupe_by_source f signals policy) _ e in
          let (best, best_at, e₂) = >>=-eq-ok (best_of f policy [] signals) _ kept_at in
          let (summed, sum_at, e₃) =
            >>=-eq-ok (add_up f store policy now (f.tenths 0) deduped) _ e₁ in
          let is_values : values best ≡ deduped = ok_injective _ _ e₂ in
          let (each, score) = add_up-AllContribute (f.tenths 0) deduped summed.0 summed.1 sum_at in
          let each_best : AllContribute (values best) summed.1 =
            subst (λ l. AllContribute l summed.1) (sym is_values) each in
          let (all, once) =
            best_of-Every f policy (λ s. Memᴰ s signals) signals [] best best_at (λ s m. m)
              (Every-empty (IsRetained f policy (λ s. Memᴰ s signals)), tt) in
          subst (IsScore signals) (ok_injective _ _ e₃) record {
            score = score;
            decision = refl;
            distinct =
                HasDistinctSources-values (λ s. Memᴰ s signals) best summed.1 once all each_best;
            sound = λ c m.
                let (s, s_in, is) = contributed (values best) summed.1 each_best c m in
                let (key, at) = Mem→lookup s best once s_in in (s, (all key s at).1, is);
            complete = λ s m.
                counted best summed.1 s (λ k t at. ((all k t at).0, tt)) each_best
                  ((best_of-IsCovered f policy fl signals [] best best_at).1 s m);
          }
