-- ===== src/ProtocolMuxer/Multiselect/Instance/Negotiation.antt =====
-- Two MultiselectInstances: the proposals of a negotiation one after the other, to its end.
use cpp_libp2p.Base.{
  ℕ, zero, suc, ◌+◌, ◌<◌, ◌≡◌, ◌^◌, refl, ap, ◌∙◌, subst, Bool, Option, Option-cases, none, some,
  List, [], ◌∷◌, ◌++◌, arith, length, get_elem?, drop, All, append-nil, inl, inr,
}
use cpp_libp2p.Basic.Collector.{FixedBufferCollector}
use cpp_libp2p.ProtocolMuxer.Multiselect.{na}
use cpp_libp2p.ProtocolMuxer.Multiselect.Serializing.Wire.{wire}
use cpp_libp2p.ProtocolMuxer.Multiselect.Instance.{MultiselectInstance}
use cpp_libp2p.ProtocolMuxer.Multiselect.Instance.Handlers.{index_of}
use cpp_libp2p.ProtocolMuxer.Multiselect.Instance.Receiving.{ReadsTo}
use cpp_libp2p.ProtocolMuxer.Multiselect.Instance.Rounds.{IsName, server, client, index_of_sound}
use cpp_libp2p.ProtocolMuxer.Multiselect.Instance.Turns.{
  again, server_accepts, server_refuses, client-Agrees, client_gives_up, client-TriesNext,
}
use cpp_libp2p.ProtocolMuxer.Multiselect.Instance.Session.{
  Session, client_reads_on, client_writes_on, server_reads_on, server_writes_on, first_common,
  Concludes, Leads, Leads-now,
}

abbrev pub between :
    List (List ℕ)
    → List (List ℕ)
    → ℕ
    → ℕ
    → Option ℕ
    → Option ℕ
    → Bool
    → ℕ
    → List ℕ
    → FixedBufferCollector
    → FixedBufferCollector
    → Session
between cs ss round round' cb cb' negotiated i line b b' = record {
  client = client cs round cb i b;
  server = server ss round' cb' negotiated b';
  to_server = wire line;
  to_client = [];
}

head_at :
    (xs : List (List ℕ)) (i : ℕ) (p : List ℕ) (ps : List (List ℕ))
    → drop i xs ≡ p ∷ ps
    → get_elem? xs i ≡ some p
head_at [] zero p ps e = cc
head_at [] (suc i) p ps e = cc
head_at (x ∷ xs) zero p ps e = ap (λ l. get_elem? l 0) e
head_at (x ∷ xs) (suc i) p ps e = head_at xs i p ps e

none_at : (xs : List (List ℕ)) (i : ℕ) → drop i xs ≡ [] → get_elem? xs i ≡ none
none_at [] i e = refl
none_at (x ∷ xs) zero e = cc
none_at (x ∷ xs) (suc i) e = none_at xs i e

tail_at :
    (xs : List (List ℕ)) (i : ℕ) (p : List ℕ) (ps : List (List ℕ))
    → drop i xs ≡ p ∷ ps
    → drop (suc i) xs ≡ ps
tail_at [] zero p ps e = cc
tail_at [] (suc i) p ps e = cc
tail_at (x ∷ xs) zero p ps e = ap (drop 1) e
tail_at (x ∷ xs) (suc i) p ps e = tail_at xs i p ps e

pub reads_whole :
    (s : MultiselectInstance) (bytes : List ℕ) (z : MultiselectInstance × List ℕ)
    → ReadsTo (s, bytes ++ []) z
    → ReadsTo (s, bytes) z
reads_whole s bytes z h = subst (λ l. ReadsTo (s, l) z) (append-nil bytes) h

first_known :
    (p : List ℕ) (ps ss : List (List ℕ)) (j : ℕ)
    → index_of 0 p ss ≡ some j
    → first_common (p ∷ ps) ss ≡ some p
first_known p ps ss j e = ground arith

first_unknown :
    (p : List ℕ) (ps ss : List (List ℕ))
    → index_of 0 p ss ≡ none
    → first_common (p ∷ ps) ss ≡ first_common ps ss
first_unknown p ps ss e = ground arith

-- The proposals of one negotiation.
module _ (cs ss : List (List ℕ)) (round round' : ℕ) (cb cb' : Option ℕ) (negotiated : Bool) where
  server_knows :
      (i j : ℕ) (p : List ℕ) (b b' : FixedBufferCollector)
      → IsName p
      → get_elem? cs i ≡ some p
      → index_of 0 p ss ≡ some j
      → Leads (between cs ss round round' cb cb' negotiated i p b b') (Concludes cb cb' (some p))
  server_knows i j p b b' h at e =
      let P = Concludes cb cb' (some p) in
      let x = between cs ss round round' cb cb' negotiated i p b b' in
      let (k, same, found) = index_of_sound 0 p ss j e in
      let in_place : get_elem? ss j ≡ some p =
        ap (get_elem? ss) (let z : j ≡ k = omega (arith, same) in z) ∙ found in
      let a = server_accepts ss round' cb' negotiated b' p [] [] h j e in_place in
      let c = client-Agrees cs round cb i b [] p h at in
      let sr = reads_whole x.server (wire p) (a.between, []) a.reads in
      let cr = reads_whole x.client (wire p) (c.end, []) c.reads in
      let x1 : Session = record x { server = a.between; to_server = [] } in
      let x2 : Session = record x1 { server = a.end; to_client = wire p } in
      let x3 : Session = record x2 { client = c.end; to_client = [] } in
      server_reads_on P sr.0 x a.between [] sr.1 (
        server_writes_on P x1 a.end (wire p) a.writes
          (client_reads_on P cr.0 x2 c.end [] cr.1 (Leads-now x3 P (c.ended, a.ended))))

  -- The server has answered "na".
  refused : ℕ → FixedBufferCollector → FixedBufferCollector → Session
  refused i b b' = record {
    client = client cs round cb i b;
    server = server ss round' cb' negotiated b';
    to_server = [];
    to_client = wire na;
  }

  server_does_not_know :
      (i : ℕ) (p : List ℕ) (b b' : FixedBufferCollector) (P : Session → Type 0)
      → IsName p
      → index_of 0 p ss ≡ none
      → Leads (refused i b (again p b')) P
      → Leads (between cs ss round round' cb cb' negotiated i p b b') P
  unfolding refused
  server_does_not_know i p b b' P h e next =
      let x = between cs ss round round' cb cb' negotiated i p b b' in
      let a = server_refuses ss round' cb' negotiated b' p [] [] h e in
      let sr = reads_whole x.server (wire p) (a.between, []) a.reads in
      let x1 : Session = record x { server = a.between; to_server = [] } in
      server_reads_on P sr.0 x a.between [] sr.1 (
        server_writes_on P x1 (server ss round' cb' negotiated (again p b')) (wire na) a.writes
          next)

  client_has_none :
      (i : ℕ) (b b' : FixedBufferCollector)
      → get_elem? cs (suc i) ≡ none
      → Leads (refused i b b') (Concludes cb cb' none)
  unfolding refused
  client_has_none i b b' e =
      let P = Concludes cb cb' none in
      let x = refused i b b' in
      let c = client_gives_up cs round cb i b [] e in
      let cr = reads_whole x.client (wire na) (c.end, []) c.reads in
      let x1 : Session = record x { client = c.end; to_client = [] } in
      client_reads_on P cr.0 x c.end [] cr.1 (Leads-now x1 P (c.ended, refl, refl))

  client_has_next :
      (i : ℕ) (p : List ℕ) (b b' : FixedBufferCollector) (P : Session → Type 0)
      → length p + 1 < 2 ^ 14
      → get_elem? cs (suc i) ≡ some p
      → Leads (between cs ss round round' cb cb' negotiated (suc i) p (again na b) b') P
      → Leads (refused i b b') P
  unfolding refused
  client_has_next i p b b' P short e next =
      let x = refused i b b' in
      let c = client-TriesNext cs round cb i b [] p [] short e in
      let cr = reads_whole x.client (wire na) (c.between, []) c.reads in
      let x1 : Session = record x { client = c.between; to_client = [] } in
      client_reads_on P cr.0 x c.between [] cr.1
        (client_writes_on P x1 (client cs round cb (suc i) (again na b)) (wire p) c.writes next)

  pub proposals-Lead :
      (ps : List (List ℕ)) (p : List ℕ) (i : ℕ) (b b' : FixedBufferCollector)
      → All IsName (p ∷ ps)
      → drop i cs ≡ p ∷ ps
      → Leads
          (between cs ss round round' cb cb' negotiated i p b b')
          (Concludes cb cb' (first_common (p ∷ ps) ss))
  proposals-Lead [] p i b b' h e = elim (Option-cases (index_of 0 p ss)) [
    | inr (j, k) ↦
        rw (first_known p [] ss j k) (server_knows i j p b b' h.0 (head_at cs i p [] e) k)
    | inl k ↦ rw (first_unknown p [] ss k) (
        server_does_not_know i p b b' (Concludes cb cb' none) h.0 k
          (client_has_none i b (again p b') (none_at cs (suc i) (tail_at cs i p [] e))))
  ]
  proposals-Lead (q ∷ qs) p i b b' h e = elim (Option-cases (index_of 0 p ss)) [
    | inr (j, k) ↦
        rw (first_known p (q ∷ qs) ss j k)
          (server_knows i j p b b' h.0 (head_at cs i p (q ∷ qs) e) k)
    | inl k ↦
        let next = tail_at cs i p (q ∷ qs) e in
        let name : IsName q = h.1.0 in
        let P = Concludes cb cb' (first_common (q ∷ qs) ss) in
        rw (first_unknown p (q ∷ qs) ss k) (
          server_does_not_know i p b b' P h.0 k (
            client_has_next i q b (again p b') P name.short (head_at cs (suc i) q qs next)
              (proposals-Lead qs q (suc i) (again na b) (again p b') h.1 next)))
  ]
