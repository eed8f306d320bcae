-- ===== src/Signed/Taking.antt =====
-- src/signed_file.c: how a transfer that arrives in chunks is taken apart into payload and block.
use mega65_expansion_board_i.Base.{
  ℕ, ◌+◌, ◌^◌, ◌<◌, ◌≤◌, ◌≡◌, ◌⊎◌, inl, inr, refl, sym, ap, ◌∙◌, Bool, true, false, Option, some,
  List, [], ◌∷◌, ◌++◌, ◌==◌, if◌then◌else◌, length, length-append, append-nil, arith, Bool-cases,
  Option-cases,
}
use mega65_expansion_board_i.Storage.{Storage, Appends}
use mega65_expansion_board_i.Signed.Block.{FileType, Crypto, IsSha, sig_block_size}
use mega65_expansion_board_i.Signed.Session
use mega65_expansion_board_i.Signed.Session.{Session, Config, Rx, sub32, at_most}
use mega65_expansion_board_i.Signed.Receive

-- What begin fixes for the whole transfer.
pub record Header : Type 0 where
  pub final_path : List ℕ
  pub cfg : Config
  pub total_length : ℕ
  pub block_offset : ℕ
  pub require_signature : Bool
  pub preserve_transfer : Bool
  pub candidate_signature : Bool
  pub file_type : FileType

module _ {st : Storage} {k : Crypto} where
  abbrev pub header : Rx st k → Header
  header rx = record {
    final_path = rx.final_path;
    cfg = rx.cfg;
    total_length = rx.total_length;
    block_offset = rx.block_offset;
    require_signature = rx.require_signature;
    preserve_transfer = rx.preserve_transfer;
    candidate_signature = rx.candidate_signature;
    file_type = rx.file_type;
  }

-- the length of the payload, as far as the lengths tell
abbrev pub limit : Header → ℕ
limit h = if h.candidate_signature then h.block_offset else h.total_length

-- A transfer longer than a block may end in one.
pub record IsSplit (h : Header) : Type 0 where
  pub fits : h.total_length < 2 ^ 32
  pub split : limit h + (if h.candidate_signature then sig_block_size else 0) ≡ h.total_length

module _ {st : Storage} {k : Crypto} (ap' : Appends st) (sh : IsSha k) where
  -- the context has absorbed the payload, if a block may follow
  abbrev pub Hashed : Bool → Option k.Ctx → List ℕ → Type 0
  Hashed true sha p = (c : k.Ctx) × (sha ≡ some c) × (sh.absorbed c ≡ p)
  Hashed false sha p = Unit

  -- The receiver has taken the payload bytes `p` and the block bytes `b`.
  pub record Taking (h : Header) (f : st.File) (p b : List ℕ) (s : Session st k) : Type 0 where
    pub head : header s.rx ≡ h
    pub opened : s.rx.out_open ≡ true
    pub file : s.rx.out_file ≡ some f
    pub live : s.rx.rejected ≡ false
    pub written : ap'.contents f s.disk ≡ p
    pub kept : s.rx.block ≡ b
    pub block_done : s.rx.block_done ≡ length b
    pub done : s.rx.done ≡ length p + length b
    pub hashed : Hashed h.candidate_signature s.rx.sha p
    pub within : length p ≤ limit h
    pub below : length p + length b ≤ h.total_length
    pub in_order : (length b ≡ 0) ⊎ (length p ≡ limit h)

  write_chunk_lem :
      (f : st.File) (xs : List ℕ) (s : Session st k)
      → ((Session.write_chunk st k f xs s).1.rx ≡ s.rx)
        × (((Session.write_chunk st k f xs s).0 ≡ true)
              × (ap'.contents f (Session.write_chunk st k f xs s).1.disk
                  ≡ ap'.contents f s.disk ++ xs)
            ⊎ ((Session.write_chunk st k f xs s).0 ≡ false))
  unfolding Session.write_chunk
  write_chunk_lem f xs s = ground (arith, ap'.contents-write f xs s.disk)

  -- what a write of payload bytes leaves behind, at an open file
  abbrev Wrote : st.File → List ℕ → Session st k → Bool × Session st k → Type 0
  Wrote f xs s r =
      (r.1.rx ≡ s.rx)
      × (((r.0 ≡ true) × (ap'.contents f r.1.disk ≡ ap'.contents f s.disk ++ xs)) ⊎ (r.0 ≡ false))

  pub receive_payload_write-Wrote :
      (f : st.File) (xs : List ℕ) (s : Session st k)
      → s.rx.out_open ≡ true
      → s.rx.out_file ≡ some f
      → Wrote f xs s (Session.receive_payload_write st k xs s)
  unfolding Session.receive_payload_write
  receive_payload_write-Wrote f [] s opened file =
      simp (opened, file) (refl, inl (refl, sym (append-nil _)))
  receive_payload_write-Wrote f (x ∷ xs) s opened file =
      let more : (length (x ∷ xs) == 0) ≡ false = ground arith in
      simp (opened, file, more) (write_chunk_lem f (x ∷ xs) s)

  -- The receiver goes on, or has rejected the transfer.
  abbrev pub Goes : Header → st.File → List ℕ → List ℕ → Bool × Session st k → Type 0
  Goes h f p b r = ((r.0 ≡ true) × Taking h f p b r.1) ⊎ ((r.0 ≡ false) × (r.1.rx.rejected ≡ true))

  counted-Taking :
      (h : Header) (f : st.File) (p xs : List ℕ) (s s' : Session st k) (sha : Option k.Ctx)
      → Taking h f p [] s
      → length p + length xs ≤ limit h
      → limit h ≤ h.total_length
      → s'.rx ≡ s.rx
      → ap'.contents f s'.disk ≡ ap'.contents f s.disk ++ xs
      → Hashed h.candidate_signature sha (p ++ xs)
      → Taking h f (p ++ xs) [] (Receive.count_payload st k xs sha s')
  counted-Taking h f p xs s s' sha t room le same wrote hashed =
      let len = length-append p xs in
      let done : s'.rx.done ≡ length p + 0 = ap (λ r. r.done) same ∙ t.done in
      record {
        head = ap header same ∙ t.head;
        opened = ap (λ r. r.out_open) same ∙ t.opened;
        file = ap (λ r. r.out_file) same ∙ t.file;
        live = ap (λ r. r.rejected) same ∙ t.live;
        written = wrote ∙ ap (λ c. c ++ xs) t.written;
        kept = ap (λ r. r.block) same ∙ t.kept;
        block_done = ap (λ r. r.block_done) same ∙ t.block_done;
        done = omega arith;
        hashed = hashed;
        within = omega arith;
        below = omega arith;
        in_order = inl refl;
      }

  pub take_payload-Goes :
      (h : Header) (f : st.File) (p xs : List ℕ) (s : Session st k)
      → Taking h f p [] s
      → length p + length xs ≤ limit h
      → limit h ≤ h.total_length
      → Goes h f (p ++ xs) [] (Receive.take_payload st k xs s)
  unfolding Receive.take_payload
  take_payload-Goes h f p xs s t room le =
      let (ok, s') = Session.receive_payload_write st k xs s in
      let (same, out) = receive_payload_write-Wrote f xs s t.opened t.file in
      let cand : s.rx.candidate_signature ≡ h.candidate_signature =
        ap (λ g. g.candidate_signature) t.head in
      elim out [
        | inr failed' ↦ inr (rw failed' (refl, refl))
        | inl (fine, wrote) ↦ elim (Bool-cases h.candidate_signature) [
          | inr plain ↦ inl (
              simp (fine, cand, plain)
                (refl, counted-Taking h f p xs s s' s.rx.sha t room le same wrote (rw plain tt)))
          | inl signed ↦
              let (c, has, abs) : (c : k.Ctx) × (s.rx.sha ≡ some c) × (sh.absorbed c ≡ p) =
                rw signed at t.hashed in
              elim (Option-cases (k.sha_update c xs)) [
                | inl stuck ↦ inr (simp (fine, cand, signed, has, stuck) (refl, refl))
                | inr (c', next) ↦ inl (
                    simp (fine, cand, signed, has, next)
                      (
                        refl,
                        counted-Taking h f p xs s s' (some c') t room le same wrote (
                            rw signed
                              (c', refl, sh.update-eq c c' xs next ∙ ap (λ q. q ++ xs) abs)),
                      ))
              ]
        ]
      ]
