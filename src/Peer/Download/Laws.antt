-- ===== src/Peer/Download/Laws.antt =====
-- Which response the parallel download takes.
use mdp2p.Peer.Download.{
  run_attempts, accept, try_one, Arrival, try_download_from_seeders, judge, Value, arrive, received,
  bundle_response, broken, timed_out,
}
use mdp2p.Peer.Check.{Rejection}
use mdp2p.Prelude.{
  Option, List, ◌∷◌, ◌≡◌, ◌⊎◌, none, some, some_injective, inr, inl, sym, ap, [], refl, ◌∙◌, subst,
}
use mathlib.Core.List.{Memᴰ}
use mdp2p.Py.Value.{Fields}
use mdp2p.Py.Result.{Result, ok, raise}

module _ (validate : Fields → Result (Option Rejection)) where
  -- An end that brings a bundle which is valid
  pub record IsValidArrival (a : Arrival) (response : Fields) : Type 0 where
    pub value : Value
    pub arrived : a ≡ received value
    pub is_bundle : bundle_response value ≡ some response
    pub is_valid : validate response ≡ ok none

  accept→ :
      (response : Fields) (r : Result (Option Rejection)) (winner : Fields)
      → accept validate response r ≡ some winner
      → (r ≡ ok none) × (response ≡ winner)
  unfolding accept
  accept→ response (raise x) winner e = cc
  accept→ response (ok (some reason)) winner e = cc
  accept→ response (ok none) winner e = (refl, some_injective response winner e)

  try_one→ :
      (a : Arrival) (winner : Fields) → try_one validate a ≡ some winner → IsValidArrival a winner
  unfolding try_one judge
  try_one→ timed_out winner e = cc
  try_one→ (broken x) winner e = cc
  try_one→ (received v) winner e = go (bundle_response v) refl e
    where
      go :
          (o : Option Fields)
          → bundle_response v ≡ o
          → judge validate o ≡ some winner
          → IsValidArrival (received v) winner
      go none at e = cc
      go (some response) at e =
          let (valid, same) = accept→ response (validate response) winner e in
          record {
            value = v;
            arrived = refl;
            is_bundle = at ∙ ap some same;
            is_valid = subst (λ r. validate r ≡ ok none) same valid;
          }

  →try_one :
      (a : Arrival) (response : Fields)
      → IsValidArrival a response
      → try_one validate a ≡ some response
  unfolding try_one judge accept
  →try_one a response is =
      ap (try_one validate) is.arrived
      ∙ ap (judge validate) is.is_bundle
      ∙ ap (accept validate response) is.is_valid

  run_attempts-winner :
      (winner : Fields) (arrivals : List Arrival)
      → run_attempts validate (some winner) arrivals ≡ some winner
  unfolding run_attempts arrive
  run_attempts-winner winner [] = refl
  run_attempts-winner winner (a ∷ arrivals) = run_attempts-winner winner arrivals

  -- The first valid response: what came before it was not valid.
  abbrev pub IsFirst : List Arrival → Fields → Type 0
  IsFirst [] response = ⊥
  IsFirst (a ∷ arrivals) response =
      IsValidArrival a response
      ⊎ (((other : Fields) → ¬ IsValidArrival a other) × IsFirst arrivals response)

  not_valid :
      (a : Arrival) → try_one validate a ≡ none → (other : Fields) → ¬ IsValidArrival a other
  not_valid a e other is = none≢some (sym e ∙ →try_one a other is)
    where
      none≢some : none ≡ some other → ⊥
      none≢some q = cc

  run_attempts→ :
      (arrivals : List Arrival) (response : Fields)
      → run_attempts validate none arrivals ≡ some response
      → IsFirst arrivals response
  unfolding run_attempts arrive
  run_attempts→ [] response e = cc
  run_attempts→ (a ∷ arrivals) response e =
      go (try_one validate a) refl (run_attempts→ arrivals response) e
    where
      go :
          (o : Option Fields)
          → try_one validate a ≡ o
          → (run_attempts validate none arrivals ≡ some response → IsFirst arrivals response)
          → run_attempts validate o arrivals ≡ some response
          → IsFirst (a ∷ arrivals) response
      go none at rest e = inr (not_valid a at, rest e)
      go (some winner) at rest e =
          inl (try_one→ a response (at ∙ sym (run_attempts-winner winner arrivals) ∙ e))

  run_attempts-some :
      (arrivals : List Arrival) (a : Arrival) (response : Fields)
      → Memᴰ a arrivals
      → IsValidArrival a response
      → (found : Fields) × (run_attempts validate none arrivals ≡ some found)
  unfolding run_attempts arrive
  run_attempts-some [] a response m is = elim m [ ]
  run_attempts-some (b ∷ arrivals) a response m is =
      go (try_one validate b) refl (λ later. run_attempts-some arrivals a response later is) m
    where
      go :
          (o : Option Fields)
          → try_one validate b ≡ o
          → (Memᴰ a arrivals
              → (found : Fields) × (run_attempts validate none arrivals ≡ some found))
          → Memᴰ a (b ∷ arrivals)
          → (found : Fields) × (run_attempts validate o arrivals ≡ some found)
      go (some winner) at rest m = (winner, run_attempts-winner winner arrivals)
      go none at rest (Memᴰ.tail later) = rest later
      go none at rest (Memᴰ.head same) =
          absurd (not_valid b at response (subst (λ x. IsValidArrival x response) same is))

  -- One honest seeder is enough: when some attempt brings a valid bundle, the download returns one,
  -- whatever the other seeders send, however they fail and in whatever order the attempts end; and what
  -- it returns is the first response that is valid.
  pub try_download_from_seeders-IsFirst :
      (arrivals : List Arrival) (a : Arrival) (response : Fields)
      → Memᴰ a arrivals
      → IsValidArrival a response
      → (found : Fields) × (try_download_from_seeders validate arrivals ≡ some found)
        × IsFirst arrivals found
  unfolding try_download_from_seeders
  try_download_from_seeders-IsFirst arrivals a response m is =
      let (found, at) = run_attempts-some arrivals a response m is in
      (found, at, run_attempts→ arrivals found at)

  -- What the download returns was sent by a seeder and is valid.
  pub try_download_from_seeders-valid :
      (arrivals : List Arrival) (found : Fields)
      → try_download_from_seeders validate arrivals ≡ some found
      → validate found ≡ ok none
  unfolding try_download_from_seeders
  try_download_from_seeders-valid arrivals found e =
      first arrivals found (run_attempts→ arrivals found e)
    where
      first : (l : List Arrival) (r : Fields) → IsFirst l r → validate r ≡ ok none
      first [] r h = absurd h
      first (b ∷ l) r (inl is) = is.is_valid
      first (b ∷ l) r (inr (earlier, later)) = first l r later
