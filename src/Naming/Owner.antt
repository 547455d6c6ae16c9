-- ===== src/Naming/Owner.antt =====
-- Who owns an address, over the life of the naming server of naming.py.
use mdp2p.Naming.Step.Requests.{handle_stream-Step}
use mdp2p.Naming.Step.{same, Step, register, register_reviewer, post_assignment, attach_review}
use mdp2p.Prelude.{◌∷◌, [], String, List, Option, arith}
use mdp2p.Py.Value.{Value}
use mdp2p.Naming.Stores.Names.Laws.{IsBound, set-IsBound}
use mdp2p.Naming.Server.{NamingServer}
use mdp2p.Prelude.Int.{ℤ, ◌≤ℤ◌}
use mdp2p.Platform.{Platform}
use mdp2p.Naming.Dispatch.{serve, handle_stream}

-- A step keeps the owner of an address.
Step-IsBound :
    (p : Platform) (now : ℤ) (s s' : NamingServer) (uri key : String) (t : ℤ)
    → Step p now s s'
    → IsBound s.store uri key t
    → (t' : ℤ) × (t ≤ℤ t') × IsBound s'.store uri key t'
Step-IsBound p now s s' uri key t same b = (t, omega arith, b)
Step-IsBound p now s s' uri key t (register rec signature v at read parsed verified) b =
    set-IsBound s.store at rec signature uri key t b
Step-IsBound p now s s' uri key t (register_reviewer store rec signature e verified) b =
    (t, omega arith, b)
Step-IsBound p now s s' uri key t (post_assignment store rec signature e verified allowed) b =
    (t, omega arith, b)
Step-IsBound p now s s' uri key t (attach_review store rec signature e verified allowed) b =
    (t, omega arith, b)

-- Once an address is bound to a public key, it stays bound to that key whatever requests the server
-- handles, at whatever clock, and the time stamp of its record never goes back.
pub serve-IsBound :
    (p : Platform) (s : NamingServer) (uri key : String) (t : ℤ)
    → IsBound s.store uri key t
    → (requests : List (ℤ × Option Value))
    → (t' : ℤ) × (t ≤ℤ t') × IsBound (serve p s requests).store uri key t'
unfolding serve
serve-IsBound p s uri key t b [] = (t, omega arith, b)
serve-IsBound p s uri key t b ((now, request) ∷ rest) =
    let (t₁, later, b₁) =
      Step-IsBound p now s (handle_stream p now s request).1 uri key t
        (handle_stream-Step p now s request) b in
    let (t₂, later', b₂) = serve-IsBound p (handle_stream p now s request).1 uri key t₁ b₁ rest in
    (t₂, omega arith, b₂)
