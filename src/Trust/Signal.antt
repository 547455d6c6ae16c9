-- ===== src/Trust/Signal.antt =====
-- trust/signal.py: one signed opinion about a piece of content. Its fields are those of a verified
-- record, so that they keep the values which JSON gives. All signals are of kind "review".
use mdp2p.Prelude.{String}
use mdp2p.Prelude.Int.{ℤ}
use mdp2p.Py.Value.{Value}

-- `Signal`
pub record Signal : Type 0 where
  pub content_key : String
  pub source_pubkey : Value
  pub verdict : Value
  pub reason : Value
  pub timestamp : ℤ
