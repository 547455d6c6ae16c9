-- ===== src/Tests/Trusts.antt =====
-- The trust store, the policy and the score at concrete inputs.
use mdp2p.Trust.Policy.Laws.{load_policy-save_policy}
use mdp2p.Dict.Sorted.{sort_keys}
use mdp2p.Prelude.Int.{pos, succ_ℤ}
use mdp2p.Trust.Store.{set_explicit_trust, peers_of, record_confirmed, peer_in, record_disputed}
use mdp2p.Trust.Scorer.Outcome.{IsScore, score_content-IsScore}
use mdp2p.Trust.Scorer.Weights.{IsWithin, IsUnknown, weight_for-IsWithin}
use mdp2p.Trust.Signal.{Signal}
use mdp2p.Trust.Scorer.{weight_for, ScoreResult, score_content, balance, warn, clamp}
use mdp2p.Trust.Policy.{is_subscribed_moderator, load_policy, Policy, save_policy}
use mdp2p.Py.Value.{float, int, str, obj, field, end, Fields}
use mdp2p.Trust.Floats.{Floats, IsFloats}
use mdp2p.Prelude.{
  String, refl, ◌≡◌, not, some, none, arith, if◌then◌else◌, true, ℕ, suc, inl, zero, inr, List, ◌⊎◌,
  ◌∷◌, ◌≢◌, [],
}
use mdp2p.Py.Result.{ok}
use mdp2p.Py.Text.{str_leb, str_leb_total, str_leb_trans}

-- Floats that compute: a float is its text, in the order of the texts.
abbrev pub some_tenths : ℕ → String
some_tenths zero = "0"
some_tenths (suc n) = "1"

abbrev pub toy_floats : Floats
toy_floats = record {
  Float = String;
  tenths = some_tenths;
  of_int = λ z. ok "2";
  of_text = λ s. some s;
  text = λ x. x;
  trunc = λ x. none;
  of_json = λ s. s;
  lt = λ x y. not (str_leb y x);
  le = str_leb;
  add = λ x y. if str_leb x y then y else x;
  mul = λ x y. if str_leb x y then y else x;
  div = λ x y. x;
  pow = λ x y. ok x;
}

str_leb_refl : (s : String) → str_leb s s ≡ true
str_leb_refl s = elim (str_leb_total s s) [ inl e ↦ e | inr e ↦ e ]

pub toy_IsFloats : IsFloats toy_floats
toy_IsFloats = record {
  lt_irrefl = λ x. ground (arith, str_leb_refl x);
  lt_trans = λ x y z p q.
      ground
        (arith, str_leb_total x y, str_leb_total y z, str_leb_trans z x y, str_leb_trans y z x);
  lt→le = λ x y p. ground (arith, str_leb_total x y);
  le_refl = λ x y p. str_leb_refl y;
  zero_refl = str_leb_refl "0";
  read-text = λ x. refl;
}

abbrev policy : Policy toy_floats
policy = record {
  threshold_warn = "1";
  threshold_hide = "5";
  default_weight_unknown = "0";
  max_weight_per_peer = "3";
  learning_rate_per_signal = "1";
  decay_half_life_days = "9";
  severity = ("ok", "0") ∷ ("warn", "1") ∷ ("reject", "3") ∷ [];
  subscribed_moderators = record { pubkey = str "mod"; weight = "2"; label = str "" } ∷ [];
}

load_policy-save_policy_example :
    load_policy toy_floats (save_policy toy_floats policy)
    ≡ ok (record policy { severity = sort_keys policy.severity })
load_policy-save_policy_example = load_policy-save_policy toy_floats toy_IsFloats policy

-- Alice is trusted by the user beyond the cap.
abbrev alice_record : Fields
alice_record = field "explicit_trust" (float "9" none) end

abbrev store : Fields
store = field "peers" (obj (field "alice" (obj alice_record) end)) end

abbrev cap : String
cap = "3"

alice_weight : weight_for toy_floats "alice" store policy ≡ ok "3"
unfolding weight_for mdp2p.Trust.Scorer.weight_from is_subscribed_moderator
    mdp2p.Trust.Policy.weight_in mdp2p.Py.Value.is_text mdp2p.Py.Value.get_attr
    mdp2p.Trust.Scorer.record_weight mdp2p.Trust.Scorer.explicit_weight mdp2p.Trust.Floats.to_float
    clamp str_leb
alice_weight = refl

weight_for-IsWithin_example :
    IsWithin toy_floats cap cap
    ⊎ (IsUnknown toy_floats toy_IsFloats policy "alice" store
        × (cap ≡ policy.default_weight_unknown))
weight_for-IsWithin_example =
    weight_for-IsWithin toy_floats toy_IsFloats policy "alice" store cap alice_weight

abbrev signal : String → String → ℕ → Signal
signal source verdict t = record {
  content_key = "key";
  source_pubkey = str source;
  verdict = str verdict;
  reason = str "";
  timestamp = pos t;
}

-- Alice warns, then rejects; the moderator has nothing to say against it.
abbrev signals : List Signal
signals = signal "alice" "warn" 50 ∷ signal "mod" "ok" 60 ∷ signal "alice" "reject" 70 ∷ []

abbrev score : ScoreResult toy_floats
score = record {
  score = "3";
  decision = warn;
  breakdown =
      record {
        source_pubkey = "alice";
        verdict = str "reject";
        weight = "3";
        severity = "3";
        decay = "1";
        contribution = "3";
      }
      ∷ record {
        source_pubkey = "mod";
        verdict = str "ok";
        weight = "2";
        severity = "0";
        decay = "1";
        contribution = "2";
      }
      ∷ [];
}

scored : score_content toy_floats store policy (pos 100) signals ≡ ok score
unfolding score_content mdp2p.Trust.Scorer.dedupe_by_source mdp2p.Trust.Scorer.best_of
    mdp2p.Py.Value.as_key mdp2p.Trust.Scorer.keep_severest mdp2p.Dict.lookup mdp2p.Dict.insert
    mdp2p.Trust.Scorer.severity_of mdp2p.Py.Value.read_key mdp2p.Trust.Scorer.add_up
    mdp2p.Dict.values str_leb mdp2p.Trust.Scorer.severity_at mdp2p.Trust.Scorer.contribution_of
    weight_for mdp2p.Trust.Scorer.weight_from is_subscribed_moderator mdp2p.Prelude.Int.minus_ℤ
    mdp2p.Py.Text.codes mdp2p.Py.Text.codes_leb mdp2p.Py.Value.get mdp2p.Py.Value.get_attr
    mdp2p.Py.Value.get_or mdp2p.Py.Value.is_text mdp2p.Trust.Floats.to_float
    mdp2p.Trust.Policy.weight_in clamp mdp2p.Trust.Scorer.decide mdp2p.Trust.Scorer.explicit_weight
    mdp2p.Trust.Scorer.record_weight mdp2p.Trust.Scorer.time_decay
scored = refl

score_content-IsScore_example : IsScore toy_floats store policy (pos 100) signals score
score_content-IsScore_example =
    score_content-IsScore toy_floats store policy (pos 100) toy_IsFloats signals score scored

abbrev bob_trusted : Fields
bob_trusted =
    field "peers"
      (obj (
        field "alice" (obj alice_record) (
          field "bob"
            (obj (
              field "explicit_trust" (float "2" none) (
                field "confirmed_signals" (int (pos 0))
                  (field "disputed_signals" (int (pos 0)) (field "last_seen" (int (pos 0)) end)))))
            end)))
      end

trusted : set_explicit_trust toy_floats store "bob" (some "2") ≡ ok bob_trusted
unfolding set_explicit_trust mdp2p.Trust.Store.get_peer peers_of mdp2p.Trust.Store.peers_from
    mdp2p.Py.Value.get mdp2p.Trust.Store.set_item peer_in mdp2p.Trust.Store.peer_or_new
    mdp2p.Py.Value.get_or mdp2p.Trust.Store.write_peer mdp2p.Trust.Store.put_peer
    mdp2p.Py.Value.with_field mdp2p.Trust.Store.neutral mdp2p.Trust.Store.trust_value
    mdp2p.Trust.Floats.as_value
trusted = refl

unsubscribed : is_subscribed_moderator toy_floats policy "bob" ≡ none
unfolding is_subscribed_moderator mdp2p.Trust.Policy.weight_in mdp2p.Py.Value.is_text
unsubscribed = refl

abbrev peers : Fields
peers = field "alice" (obj alice_record) end

peers_read : peers_of store ≡ ok peers
unfolding peers_of mdp2p.Trust.Store.peers_from mdp2p.Py.Value.get
peers_read = refl

bob_balance : balance toy_floats (peer_in peers "bob") ≡ ok (pos 0)
unfolding balance mdp2p.Py.Value.get_attr peer_in mdp2p.Trust.Store.peer_or_new
    mdp2p.Py.Number.to_int mdp2p.Trust.Store.neutral mdp2p.Prelude.Int.minus_ℤ
bob_balance = refl
