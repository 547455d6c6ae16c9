-- ===== src/Trust/Policy.antt =====
-- trust/policy.py: the user's moderation policy and its JSON file.
pub mod Laws
use mdp2p.Prelude.{
  String, ◌==◌, Bool, true, false, Option, none, some, List, [], ◌∷◌, if◌then◌else◌,
}
use mdp2p.Dict.{Dict, insert}
use mdp2p.Dict.Sorted.{sort_keys}
use mdp2p.Naming.Stores.Disk.{File, absent, unreadable, holds}
use mdp2p.Py.Result.{Result, ◌>>=◌, ok, raise, type_error, value_error, attribute_error}
use mdp2p.Py.Value.{
  Fields, end, field, Items, nil, cons, Value, null, str, arr, obj, get, get_or, is_text, or_empty,
  truthy,
}
use mdp2p.Trust.Floats.{Floats, to_float, as_value}

-- `ModeratorSubscription`
pub record ModeratorSubscription (f : Floats) : Type 0 where
  pub pubkey : Value
  pub weight : f.Float
  pub label : Value

pub record Policy (f : Floats) : Type 0 where
  pub threshold_warn : f.Float
  pub threshold_hide : f.Float
  pub default_weight_unknown : f.Float
  pub max_weight_per_peer : f.Float
  pub learning_rate_per_signal : f.Float
  pub decay_half_life_days : f.Float
  pub severity : Dict f.Float
  pub subscribed_moderators : List (ModeratorSubscription f)

module _ (f : Floats) where
  unfoldable pub default_policy : Policy f
  default_policy = record {
    threshold_warn = f.tenths 20;
    threshold_hide = f.tenths 50;
    default_weight_unknown = f.tenths 1;
    max_weight_per_peer = f.tenths 20;
    learning_rate_per_signal = f.tenths 1;
    decay_half_life_days = f.tenths 900;
    severity = ("ok", f.tenths 0) ∷ ("warn", f.tenths 10) ∷ ("reject", f.tenths 30) ∷ [];
    subscribed_moderators = [];
  }

  unfoldable pub weight_in : List (ModeratorSubscription f) → String → Option f.Float
  weight_in [] pubkey = none
  weight_in (sub ∷ subs) pubkey =
      if is_text sub.pubkey pubkey then some sub.weight else weight_in subs pubkey

  -- `is_subscribed_moderator(policy, pubkey)`
  unfoldable pub is_subscribed_moderator : Policy f → String → Option f.Float
  is_subscribed_moderator policy pubkey = weight_in policy.subscribed_moderators pubkey

  -- `float(data.get(key, default))`
  unfoldable pub read_float : Fields → String → f.Float → Result f.Float
  read_float fields key default = elim (get fields key) [
    | none ↦ ok default
    | some v ↦ to_float f v
  ]

  unfoldable pub subscription_of : Value → Fields → Result (ModeratorSubscription f)
  subscription_of pubkey s = do
    w ← read_float s "weight" (f.tenths 10)
    ok record { pubkey = pubkey; weight = w; label = get_or s "label" (str "") }

  -- The comprehension over `subs_raw`: entries that are no dictionary, or have no key, are left out.
  unfoldable pub subscriptions : Items → Result (List (ModeratorSubscription f))
  subscriptions nil = ok []
  subscriptions (cons (obj s) xs) = elim (get s "pubkey") [
    | none ↦ subscriptions xs
    | some pubkey ↦ (do sub ← subscription_of pubkey s; subs ← subscriptions xs; ok (sub ∷ subs))
  ]
  subscriptions (cons _ xs) = subscriptions xs

  -- A text or a dictionary gives its characters or its keys, of which none is a dictionary.
  unfoldable pub read_subscriptions : Value → Result (List (ModeratorSubscription f))
  read_subscriptions (arr xs) = subscriptions xs
  read_subscriptions (str s) = ok []
  read_subscriptions (obj fs) = ok []
  read_subscriptions v = if truthy v then raise type_error else ok []

  -- `{k: float(v) for k, v in severity.items()}`
  unfoldable pub read_severity : Fields → Result (Dict f.Float)
  read_severity end = ok []
  read_severity (field k v fs) = do x ← to_float f v; rest ← read_severity fs; ok ((k, x) ∷ rest)

  unfoldable pub severity_from : Value → Result (Dict f.Float)
  severity_from (obj fs) = read_severity fs
  severity_from _ = ok default_policy.severity

  -- `_policy_from_dict(data)`
  unfoldable pub policy_from_dict : Fields → Result (Policy f)
  policy_from_dict fields = do
    subs ← read_subscriptions (get_or fields "subscribed_moderators" null)
    warn ← read_float fields "threshold_warn" default_policy.threshold_warn
    hide ← read_float fields "threshold_hide" default_policy.threshold_hide
    unknown ← read_float fields "default_weight_unknown" default_policy.default_weight_unknown
    cap ← read_float fields "max_weight_per_peer" default_policy.max_weight_per_peer
    rate ← read_float fields "learning_rate_per_signal" default_policy.learning_rate_per_signal
    half_life ← read_float fields "decay_half_life_days" default_policy.decay_half_life_days
    severity ← severity_from (get_or fields "severity" null)
    ok record {
      threshold_warn = warn;
      threshold_hide = hide;
      default_weight_unknown = unknown;
      max_weight_per_peer = cap;
      learning_rate_per_signal = rate;
      decay_half_life_days = half_life;
      severity = severity;
      subscribed_moderators = subs;
    }

  -- `load_policy(path)`
  unfoldable pub load_policy : File Value → Result (Policy f)
  load_policy absent = ok default_policy
  load_policy unreadable = raise value_error
  load_policy (holds (obj fields)) = policy_from_dict fields
  load_policy (holds v) = raise attribute_error

  unfoldable pub severity_fields : Dict f.Float → Fields
  severity_fields [] = end
  severity_fields ((k, x) ∷ d) = field k (as_value f x) (severity_fields d)

  unfoldable pub subscription_items : List (ModeratorSubscription f) → Items
  subscription_items [] = nil
  subscription_items (sub ∷ subs) =
      cons
        (obj (
          field "label" sub.label
            (field "pubkey" sub.pubkey (field "weight" (as_value f sub.weight) end))))
        (subscription_items subs)

  -- `save_policy(policy, path)`: the fields of `asdict(policy)`, with `sort_keys=True`
  unfoldable pub save_policy : Policy f → File Value
  save_policy policy = holds (
      obj (
        field "decay_half_life_days" (as_value f policy.decay_half_life_days) (
          field "default_weight_unknown" (as_value f policy.default_weight_unknown) (
            field "learning_rate_per_signal" (as_value f policy.learning_rate_per_signal) (
              field "max_weight_per_peer" (as_value f policy.max_weight_per_peer) (
                field "severity" (obj (severity_fields (sort_keys policy.severity))) (
                  field "subscribed_moderators"
                    (arr (subscription_items policy.subscribed_moderators))
                    (field "threshold_hide" (as_value f policy.threshold_hide)
                      (field "threshold_warn" (as_value f policy.threshold_warn) end)))))))))
