-- ===== src/Trust/Scorer.antt =====
-- trust/scorer.py: the score of a piece of content and the decision whether to show it.
pub mod Weights
pub mod Sources
pub mod Outcome
use mdp2p.Prelude.{
  String, Bool, true, false, ◌||◌, Option, none, some, List, [], ◌∷◌, if◌then◌else◌,
}
use mdp2p.Prelude.Int.{ℤ, pos, leb_ℤ, minus_ℤ}
use mdp2p.Dict.{Dict, insert, lookup, values}
use mdp2p.Py.Number.{to_int}
use mdp2p.Py.Result.{Result, ◌>>=◌, ok}
use mdp2p.Py.Value.{Fields, Value, null, int, end, obj, get_or, get_attr, as_key, read_key}
use mdp2p.Trust.Floats.{Floats, to_float}
use mdp2p.Trust.Policy.{Policy, is_subscribed_moderator}
use mdp2p.Trust.Signal.{Signal}

pub data Decision : Type 0 where
  show warn hide : Decision

pub record SignalContribution (f : Floats) : Type 0 where
  pub source_pubkey : String
  pub verdict : Value
  pub weight : f.Float
  pub severity : f.Float
  pub decay : f.Float
  pub contribution : f.Float

pub record ScoreResult (f : Floats) : Type 0 where
  pub score : f.Float
  pub decision : Decision
  pub breakdown : List (SignalContribution f)

module _ (f : Floats) where
  -- `max(low, min(high, value))`: `min` and `max` keep their first argument unless the second is
  -- less, or greater.
  unfoldable pub clamp : f.Float → f.Float → f.Float → f.Float
  clamp value low high =
      let m = (if f.lt value high then value else high) in if f.lt low m then m else low

  unfoldable pub decide : f.Float → Policy f → Decision
  decide score policy =
      if f.le policy.threshold_hide score
      then hide
      else if f.le policy.threshold_warn score
      then warn
      else show

  unfoldable pub severity_at : Dict f.Float → Option String → f.Float
  severity_at d none = f.tenths 0
  severity_at d (some k) = elim (lookup k d) [ none ↦ f.tenths 0 | some x ↦ x ]

  -- `policy.severity.get(verdict, 0.0)`
  unfoldable pub severity_of : Policy f → Value → Result f.Float
  severity_of policy verdict = do k ← read_key verdict; ok (severity_at policy.severity k)

  -- One turn of the loop: `current` is what is kept of the source.
  unfoldable pub keep_severest :
      Policy f → Dict Signal → String → Signal → Option Signal → Result (Dict Signal)
  keep_severest policy best key signal none = ok (insert key signal best)
  keep_severest policy best key signal (some current) = do
    new ← severity_of policy signal.verdict
    old ← severity_of policy current.verdict
    ok (if f.lt old new then insert key signal best else best)

  unfoldable pub best_of : Policy f → Dict Signal → List Signal → Result (Dict Signal)
  best_of policy best [] = ok best
  best_of policy best (signal ∷ signals) = do
    key ← as_key signal.source_pubkey
    next ← keep_severest policy best key signal (lookup key best)
    best_of policy next signals

  -- `_dedupe_by_source(signals, policy)`
  unfoldable pub dedupe_by_source : List Signal → Policy f → Result (List Signal)
  dedupe_by_source signals policy = do best ← best_of policy [] signals; ok (values best)

  -- `record.get("confirmed_signals", 0)` less `record.get("disputed_signals", 0)`, as integers
  unfoldable pub balance : Value → Result ℤ
  balance rec = do
    confirmed ← get_attr rec "confirmed_signals" (int (pos 0))
    c ← to_int confirmed
    disputed ← get_attr rec "disputed_signals" (int (pos 0))
    d ← to_int disputed
    ok (minus_ℤ c d)

  unfoldable pub learned_weight : Value → Policy f → Result f.Float
  learned_weight rec policy = do
    z ← balance rec
    n ← f.of_int z
    ok (
        clamp (f.add policy.default_weight_unknown (f.mul policy.learning_rate_per_signal n))
          (f.tenths 0) policy.max_weight_per_peer)

  unfoldable pub explicit_weight : Value → Value → Policy f → Result f.Float
  explicit_weight null rec policy = learned_weight rec policy
  explicit_weight v rec policy = do
    x ← to_float f v
    ok (clamp x (f.tenths 0) policy.max_weight_per_peer)

  unfoldable pub record_weight : Value → Policy f → Result f.Float
  record_weight null policy = ok policy.default_weight_unknown
  record_weight rec policy = do
    explicit ← get_attr rec "explicit_trust" null
    explicit_weight explicit rec policy

  unfoldable pub weight_from : Option f.Float → String → Fields → Policy f → Result f.Float
  weight_from (some subscribed) pubkey store policy =
      ok (clamp subscribed (f.tenths 0) policy.max_weight_per_peer)
  weight_from none pubkey store policy = do
    rec ← get_attr (get_or store "peers" (obj end)) pubkey null
    record_weight rec policy

  -- `_weight_for(pubkey, store, policy)`
  unfoldable pub weight_for : String → Fields → Policy f → Result f.Float
  weight_for pubkey store policy =
      weight_from (is_subscribed_moderator f policy pubkey) pubkey store policy

  -- `_time_decay(signal_ts, now, half_life_days)`
  unfoldable pub time_decay : ℤ → ℤ → f.Float → Result f.Float
  time_decay signal_ts now half_life_days =
      let aged = (do
        seconds ← f.of_int (minus_ℤ now signal_ts)
        f.pow (f.tenths 5) (f.div (f.div seconds (f.tenths 864000)) half_life_days)) in
      if f.le half_life_days (f.tenths 0) || leb_ℤ signal_ts (pos 0) || leb_ℤ now signal_ts
      then ok (f.tenths 10)
      else aged

  module _ (store : Fields) (policy : Policy f) (now : ℤ) where
    unfoldable pub contribution_of : Signal → Result (SignalContribution f)
    contribution_of signal = do
      key ← as_key signal.source_pubkey
      weight ← weight_for key store policy
      severity ← severity_of policy signal.verdict
      decay ← time_decay signal.timestamp now policy.decay_half_life_days
      ok record {
        source_pubkey = key;
        verdict = signal.verdict;
        weight = weight;
        severity = severity;
        decay = decay;
        contribution = f.mul (f.mul weight severity) decay;
      }

    -- The loop over the signals that are left: the total, and the contributions in order
    unfoldable pub add_up : f.Float → List Signal → Result (f.Float × List (SignalContribution f))
    add_up total [] = ok (total, [])
    add_up total (signal ∷ signals) = do
      c ← contribution_of signal
      rest ← add_up (f.add total c.contribution) signals
      ok (rest.0, c ∷ rest.1)

    -- `score_content(signals, store, policy, now)`
    unfoldable pub score_content : List Signal → Result (ScoreResult f)
    score_content signals = do
      deduped ← dedupe_by_source signals policy
      summed ← add_up (f.tenths 0) deduped
      ok record { score = summed.0; decision = decide summed.0 policy; breakdown = summed.1 }
