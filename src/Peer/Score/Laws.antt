-- ===== src/Peer/Score/Laws.antt =====
-- What a score that `compute_score` returns is made of.
use mdp2p.Prelude.{
  String, some, List, ◌≡◌, inr, AllOf, ◌⊎◌, inl, AllOf-at, Bool, if◌then◌else◌, not, refl,
}
use mdp2p.Peer.Score.{
  score_uri, score_signals, score_record, compute_score, score_reply, client_resolve, item, Signal,
  UriError, validate_uri, compute_content_key, entries_listed, client_get_attachments,
  attachments_to_signals, runtime_error, is_text,
}
use mdp2p.Prelude.Int.{ℤ}
use mdp2p.Naming.Stores.Disk.{File}
use mdp2p.Platform.{Platform}
use mathlib.Core.List.{Memᴰ}
use mdp2p.Trust.Floats.{Floats, IsFloats}
use mdp2p.Trust.Scorer.Outcome.{IsContribution, IsScore, HasDistinctSources, score_content-IsScore}
use mdp2p.Trust.Policy.{Policy, load_policy}
use mdp2p.Trust.Store.{load_store}
use mdp2p.Trust.Scorer.{ScoreResult, SignalContribution}
use mdp2p.Peer.Reviews.Laws.{IsAuthentic, attachments_to_signals-IsAuthentic}
use mdp2p.Prelude.{true, false}
use mdp2p.Py.Value.{null, str, obj, Value, Fields, get_or}
use mdp2p.Py.Result.{Result, ok, raise, >>=-eq-ok}

module _ (p : Platform) (f : Floats) (policy_file store_file : File Value) (now : ℤ) where
  -- The score of some signals, each of which is a review of the content that its reviewer signed
  pub record IsReviewed (content_key : String) (result : ScoreResult f) : Type 0 where
    pub policy : Policy f
    pub policy_at : load_policy f policy_file ≡ ok policy
    pub store : Fields
    pub store_at : load_store store_file ≡ ok store
    pub signals : List Signal
    pub is_score : IsScore f store policy now signals result
    pub authentic :
        (c : SignalContribution f)
        → Memᴰ c result.breakdown
        → (s : Signal) × IsAuthentic p content_key s × IsContribution f store policy now s c

  module _ (fl : IsFloats f) where
    score_signals-IsReviewed :
        (content_key : String) (signals : List Signal) (result : ScoreResult f)
        → AllOf (IsAuthentic p content_key) signals
        → score_signals p f policy_file store_file now signals ≡ ok result
        → IsReviewed content_key result
    unfolding score_signals
    score_signals-IsReviewed content_key signals result all e =
        let (policy, policy_at, e₁) = >>=-eq-ok (load_policy f policy_file) _ e in
        let (store, store_at, e₂) = >>=-eq-ok (load_store store_file) _ e₁ in
        let is = score_content-IsScore f store policy now fl signals result e₂ in
        record {
          policy = policy;
          policy_at = policy_at;
          store = store;
          store_at = store_at;
          signals = signals;
          is_score = is;
          authentic = λ c m.
              let (s, s_in, of) = is.sound c m in
              (s, AllOf-at (IsAuthentic p content_key) signals s all s_in, of);
        }

    score_record-IsReviewed :
        (rpc : Fields → Result Fields) (uri : String) (rec : Value) (result : ScoreResult f)
        → score_record p f policy_file store_file now rpc uri rec ≡ ok result
        → (key : Value) × (item rec "public_key" ≡ ok key)
          × IsReviewed (compute_content_key p (str uri) key) result
    unfolding score_record
    score_record-IsReviewed rpc uri rec result e =
        let (key, key_at, e₁) = >>=-eq-ok (item rec "public_key") _ e in
        let content_key = compute_content_key p (str uri) key in
        let (entries, _, e₂) =
          >>=-eq-ok (entries_listed (client_get_attachments rpc content_key)) _ e₁ in
        let (signals, signals_at, e₃) =
          >>=-eq-ok (attachments_to_signals p entries content_key) _ e₂ in
        (
          key,
          key_at,
          score_signals-IsReviewed content_key signals result
              (attachments_to_signals-IsAuthentic p entries content_key signals signals_at) e₃,
        )

    -- A naming record that the server resolves the address to: what `compute_score` reads of it is the
    -- key, and the score is that of the content of the address under this key.
    abbrev pub IsScored : (Fields → Result Fields) → String → ScoreResult f → Type 0
    IsScored rpc uri result =
        (reply : Fields) × (rec : Value) × (key : Value) × (client_resolve rpc uri ≡ ok reply)
        × (item (obj reply) "record" ≡ ok rec)
        × (item rec "public_key" ≡ ok key)
        × IsReviewed (compute_content_key p (str uri) key) result

    score_uri-IsScored :
        (rpc : Fields → Result Fields) (r : UriError ⊎ String) (result : ScoreResult f)
        → score_uri p f policy_file store_file now rpc r ≡ ok result
        → (uri : String) × (r ≡ inr uri) × IsScored rpc uri result
    unfolding score_uri score_reply
    score_uri-IsScored rpc (inl e) result h = absurd (cc)
    score_uri-IsScored rpc (inr uri) result h =
        let (reply, resolved, h₁) = >>=-eq-ok (client_resolve rpc uri) _ h in
        let h₂ = when (is_text (get_or reply "type" null) "record") _ h₁ in
        let (rec, rec_at, h₃) = >>=-eq-ok (item (obj reply) "record") _ h₂ in
        let (key, key_at, reviewed) = score_record-IsReviewed rpc uri rec result h₃ in
        (uri, refl, (reply, rec, key, resolved, rec_at, key_at, reviewed))
      where
        when :
            (b : Bool) (next : Result (ScoreResult f))
            → (if not b then raise runtime_error else next) ≡ ok result
            → next ≡ ok result
        when true next h = h
        when false next h = absurd (cc)

    -- Whatever the naming server lists: when `compute_score` returns, the address is valid, and every
    -- contribution to the score comes from a review of the content of the address under the key that
    -- the server resolves it to, signed by the reviewer that it counts for; no reviewer counts twice.
    pub compute_score-IsScored :
        (rpc : Fields → Result Fields) (uri : String) (result : ScoreResult f)
        → compute_score p f policy_file store_file now (some rpc) uri ≡ ok result
        → (u : String) × (validate_uri (str uri) ≡ inr u)
          × IsScored rpc u result
          × HasDistinctSources f result.breakdown
    unfolding compute_score
    compute_score-IsScored rpc uri result e =
        let (u, at, scored) = score_uri-IsScored rpc (validate_uri (str uri)) result e in
        let (reply, rec, key, resolved, rec_at, key_at, reviewed) = scored in
        (u, at, scored, reviewed.is_score.distinct)
