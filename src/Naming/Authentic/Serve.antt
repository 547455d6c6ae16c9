-- ===== src/Naming/Authentic/Serve.antt =====
-- The stores of the naming server of naming.py, over its life.
use mdp2p.Naming.Step.Requests.{handle_stream-Step}
use mdp2p.Naming.Authentic.{
  IsAuthentic, names-set, Value, Every, IsOptInAt, opt_ins-set, Every₂, IsAssignmentAt,
  assignments-add, IsReviewAt, reviews-attach,
}
use mdp2p.Naming.Server.{NamingServer}
use mdp2p.Naming.Dispatch.{serve, handle_stream}
use mdp2p.Prelude.Int.{ℤ}
use mdp2p.Platform.{Platform}
use mdp2p.Prelude.{[], ◌∷◌, List, Option, subst, some_injective}
use mdp2p.Naming.Step.{Step, same, register, register_reviewer, post_assignment, attach_review}

module _ (p : Platform) where
  Step-IsAuthentic :
      (now : ℤ) (s s' : NamingServer) → Step p now s s' → IsAuthentic p s → IsAuthentic p s'
  Step-IsAuthentic now s s' same a = a
  Step-IsAuthentic now s s' (register rec signature v uri at parsed verified) a = record {
    names = names-set p s.store now rec signature v uri a.names at parsed verified;
    opt_ins = a.opt_ins;
    assignments = a.assignments;
    reviews = a.reviews;
  }
  Step-IsAuthentic now s s' (register_reviewer store rec signature e verified) a = record {
    names = a.names;
    opt_ins = λ st h.
        subst (λ x. Every (IsOptInAt p) x.records) (some_injective _ st h)
          (opt_ins-set p store now rec signature (a.opt_ins store e) verified);
    assignments = a.assignments;
    reviews = a.reviews;
  }
  Step-IsAuthentic now s s' (post_assignment store rec signature e verified allowed) a = record {
    names = a.names;
    opt_ins = a.opt_ins;
    assignments = λ st h.
        subst (λ x. Every₂ (IsAssignmentAt p) x.inbox) (some_injective _ st h)
          (assignments-add p store now rec signature (a.assignments store e) verified);
    reviews = a.reviews;
  }
  Step-IsAuthentic now s s' (attach_review store rec signature e verified allowed) a = record {
    names = a.names;
    opt_ins = a.opt_ins;
    assignments = a.assignments;
    reviews = λ st h.
        subst (λ x. Every₂ (IsReviewAt p) x.attachments) (some_injective _ st h)
          (reviews-attach p store now rec signature (a.reviews store e) verified);
  }

  -- Whatever requests the server handles, at whatever clock, each entry of its four stores stays one
  -- that a client's own check accepts, and stands under the address or the keys that the signed record
  -- names.
  pub serve-IsAuthentic :
      (s : NamingServer)
      → IsAuthentic p s
      → (requests : List (ℤ × Option Value)) → IsAuthentic p (serve p s requests)
  unfolding serve
  serve-IsAuthentic s a [] = a
  serve-IsAuthentic s a ((now, request) ∷ rest) =
      serve-IsAuthentic (handle_stream p now s request).1
        (Step-IsAuthentic now s _ (handle_stream-Step p now s request) a) rest
