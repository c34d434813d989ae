-- ===== src/ProtocolMuxer/Multiselect/Instance/Session.antt =====
-- Two MultiselectInstances that negotiate over one connection.
use cpp_libp2p.Base.{
  ℕ, zero, suc, ◌≡◌, refl, sym, ap, subst, false, Option, none, some, List, [], ◌∷◌,
}
use cpp_libp2p.ProtocolMuxer.Multiselect.{MuxerError}
use cpp_libp2p.ProtocolMuxer.Multiselect.Instance.{MultiselectInstance, Negotiated, Failure}
use cpp_libp2p.ProtocolMuxer.Multiselect.Instance.Handlers.{index_of}
use cpp_libp2p.ProtocolMuxer.Multiselect.Instance.Channel.{receive_some, read_times, write_one}
use cpp_libp2p.ProtocolMuxer.Multiselect.Instance.Turns.{Ended}

-- Both sides, and the bytes on the way to each.
pub record Session : Type 0 where
  pub client : MultiselectInstance
  pub server : MultiselectInstance
  pub to_server : List ℕ
  pub to_client : List ℕ

pub data Move : Type 0 where
  client_reads : Move
  client_writes : Move
  server_reads : Move
  server_writes : Move

unfoldable pub play : Move → Session → Session
play client_reads x =
    let (s, input) = receive_some (x.client, x.to_client) in
    record x { client = s; to_client = input }
play client_writes x =
    let (s, output) = write_one (x.client, x.to_server) in
    record x { client = s; to_server = output }
play server_reads x =
    let (s, input) = receive_some (x.server, x.to_server) in
    record x { server = s; to_server = input }
play server_writes x =
    let (s, output) = write_one (x.server, x.to_client) in
    record x { server = s; to_client = output }

unfoldable pub play_all : List Move → Session → Session
play_all [] x = x
play_all (m ∷ ms) x = play_all ms (play m x)

-- What the two are to agree on: the first of the client's protocols that the server knows.
abbrev pub first_common : List (List ℕ) → List (List ℕ) → Option (List ℕ)
first_common [] ss = none
first_common (p ∷ ps) ss = elim (index_of 0 p ss) [ some i ↦ some p | none ↦ first_common ps ss ]

-- Both sides tell their owners the protocol, or the client tells that there is none, and the server
-- waits for another proposal.
abbrev pub Concludes : Option ℕ → Option ℕ → Option (List ℕ) → Session → Type 0
Concludes cb cb' none x =
    Ended cb (Negotiated.failed (Failure.muxer MuxerError.negotiation_failed)) x.client
    × (x.server.closed ≡ false)
    × (x.server.told ≡ [])
Concludes cb cb' (some p) x =
    Ended cb (Negotiated.selected p) x.client × Ended cb' (Negotiated.selected p) x.server

-- Some moves lead to a session with this property.
abbrev pub Leads : Session → (Session → Type 0) → Type 0
Leads x P = (ms : List Move) × P (play_all ms x)

pub Leads-now : (x : Session) (P : Session → Type 0) → P x → Leads x P
unfolding play_all
Leads-now x P h = ([], h)

Leads-step :
    (m : Move) (x y : Session) (P : Session → Type 0) → play m x ≡ y → Leads y P → Leads x P
unfolding play_all
Leads-step m x y P e (ms, h) = (m ∷ ms, subst (λ z. P (play_all ms z)) (sym e) h)

module _ (P : Session → Type 0) where
  pub client_reads_on :
      (k : ℕ) (x : Session) (r : MultiselectInstance) (input : List ℕ)
      → read_times k (x.client, x.to_client) ≡ (r, input)
      → Leads (record x { client = r; to_client = input }) P
      → Leads x P
  unfolding read_times play
  client_reads_on zero x r input e h =
      subst (λ y. Leads (record x { client = y.0; to_client = y.1 }) P) (sym e) h
  client_reads_on (suc k) x r input e h =
      let y = receive_some (x.client, x.to_client) in
      Leads-step client_reads x (record x { client = y.0; to_client = y.1 }) P refl
        (client_reads_on k (record x { client = y.0; to_client = y.1 }) r input e h)

  pub server_reads_on :
      (k : ℕ) (x : Session) (r : MultiselectInstance) (input : List ℕ)
      → read_times k (x.server, x.to_server) ≡ (r, input)
      → Leads (record x { server = r; to_server = input }) P
      → Leads x P
  unfolding read_times play
  server_reads_on zero x r input e h =
      subst (λ y. Leads (record x { server = y.0; to_server = y.1 }) P) (sym e) h
  server_reads_on (suc k) x r input e h =
      let y = receive_some (x.server, x.to_server) in
      Leads-step server_reads x (record x { server = y.0; to_server = y.1 }) P refl
        (server_reads_on k (record x { server = y.0; to_server = y.1 }) r input e h)

  pub client_writes_on :
      (x : Session) (r : MultiselectInstance) (output : List ℕ)
      → write_one (x.client, x.to_server) ≡ (r, output)
      → Leads (record x { client = r; to_server = output }) P
      → Leads x P
  unfolding play
  client_writes_on x r output e h =
      Leads-step client_writes x (record x { client = r; to_server = output }) P
        (ap (λ y. record x { client = y.0; to_server = y.1 }) e) h

  pub server_writes_on :
      (x : Session) (r : MultiselectInstance) (output : List ℕ)
      → write_one (x.server, x.to_client) ≡ (r, output)
      → Leads (record x { server = r; to_client = output }) P
      → Leads x P
  unfolding play
  server_writes_on x r output e h =
      Leads-step server_writes x (record x { server = r; to_client = output }) P
        (ap (λ y. record x { server = y.0; to_client = y.1 }) e) h
