-- ===== src/Trust/Policy/Laws.antt =====
-- Saving a policy and loading it again.
use mdp2p.Prelude.{◌≡◌, ap, List, refl, ◌∷◌, []}
use mdp2p.Trust.Policy.{
  subscriptions, load_policy, read_severity, subscription_of, read_float, severity_fields,
  save_policy, subscription_items, Dict, policy_from_dict, read_subscriptions, get_or,
  ModeratorSubscription, severity_from, Policy, sort_keys,
}
use mdp2p.Py.Value.{get, get_or, field, end}
use mdp2p.Trust.Floats.{Floats, IsFloats, to_float, as_value}
use mdp2p.Py.Result.{ok}

module _ (f : Floats) (fl : IsFloats f) where
  pub to_float-as_value : (x : f.Float) → to_float f (as_value f x) ≡ ok x
  unfolding to_float as_value
  to_float-as_value x = ap ok (fl.read-text x)

  read_severity-severity_fields : (d : Dict f.Float) → read_severity f (severity_fields f d) ≡ ok d
  unfolding read_severity severity_fields
  read_severity-severity_fields [] = refl
  read_severity-severity_fields ((k, x) ∷ d) =
      rw (to_float-as_value x, read_severity-severity_fields d) refl

  subscription_of-label :
      (sub : ModeratorSubscription f)
      → subscription_of f sub.pubkey (
          field "label" sub.label
            (field "pubkey" sub.pubkey (field "weight" (as_value f sub.weight) end)))
        ≡ ok sub
  unfolding subscription_of read_float get get_or
  subscription_of-label sub = rw (to_float-as_value sub.weight) refl

  subscriptions-subscription_items :
      (subs : List (ModeratorSubscription f))
      → subscriptions f (subscription_items f subs) ≡ ok subs
  unfolding subscriptions subscription_items get
  subscriptions-subscription_items [] = refl
  subscriptions-subscription_items (sub ∷ subs) =
      rw (subscription_of-label sub, subscriptions-subscription_items subs) refl

  -- A policy that is saved is loaded as it was, its severities in the order of the verdicts' names.
  pub load_policy-save_policy :
      (policy : Policy f)
      → load_policy f (save_policy f policy)
        ≡ ok (record policy { severity = sort_keys policy.severity })
  unfolding load_policy save_policy policy_from_dict read_float read_subscriptions severity_from get
      get_or
  load_policy-save_policy policy =
      rw
        (
          subscriptions-subscription_items policy.subscribed_moderators,
          to_float-as_value policy.threshold_warn,
          to_float-as_value policy.threshold_hide,
          to_float-as_value policy.default_weight_unknown,
          to_float-as_value policy.max_weight_per_peer,
          to_float-as_value policy.learning_rate_per_signal,
          to_float-as_value policy.decay_half_life_days,
          read_severity-severity_fields (sort_keys policy.severity),
        )
        refl
