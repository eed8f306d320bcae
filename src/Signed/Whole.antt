-- ===== src/Signed/Whole.antt =====
-- src/signed_file.c: a whole run of the receiver: begin, the writes, finish.
use mega65_expansion_board_i.Base.{
  ℕ, ◌^◌, ◌<◌, ◌≡◌, inl, inr, refl, sym, ap, subst, ◌∙◌, Bool, true, false, Option, none, some,
  List, [], ◌∷◌, ◌++◌, length, append-nil, append_assoc, arith,
}
use mega65_expansion_board_i.Storage.{Storage, Appends}
use mega65_expansion_board_i.Signed.Block.{FileType, Crypto, IsSha}
use mega65_expansion_board_i.Signed.Session
use mega65_expansion_board_i.Signed.Session.{Session, Config}
use mega65_expansion_board_i.Signed.Receive
use mega65_expansion_board_i.Signed.Taking.{Header, IsSplit, Taking}
use mega65_expansion_board_i.Signed.Write.{
  signed_file_receive_write-Splits, signed_file_receive_begin-Taking, header_of, initial-IsSplit,
  total_length_of,
}
use mega65_expansion_board_i.Signed.Finish.{Accepted, signed_file_receive_finish-Accepted}

abbrev pub concat : List (List ℕ) → List ℕ
concat [] = []
concat (c ∷ cs) = c ++ concat cs

-- every chunk is shorter than 2 ^ 31 bytes
abbrev pub Short : List (List ℕ) → Type 0
Short [] = Unit
Short (c ∷ cs) = (length c < 2 ^ 31) × Short cs

module _ (st : Storage) (k : Crypto) where
  -- a caller's loop: the chunks of a transfer in order, up to the first write that fails
  abbrev after :
      (Session st k → Option (Bool × Session st k))
      → Bool × Session st k
      → Option (Bool × Session st k)
  after next (true, s) = next s
  after next (false, s) = some (false, s)

  -- one write, then the rest
  abbrev onward :
      Option (Bool × Session st k)
      → (Session st k → Option (Bool × Session st k))
      → Option (Bool × Session st k)
  onward none next = none
  onward (some r) next = after next r

  unfoldable pub write_all : List (List ℕ) → Session st k → Option (Bool × Session st k)
  write_all [] s = some (true, s)
  write_all (c ∷ cs) s = onward (Receive.signed_file_receive_write st k c s) (write_all cs)

module _ {st : Storage} {k : Crypto} (ap' : Appends st) (sh : IsSha k) where
  -- The writes end, and what they leave behind if none fails is a payload and a block.
  abbrev Ends : Header → st.File → List ℕ → Option (Bool × Session st k) → Type 0
  Ends h f all o =
      (r : Bool × Session st k) × (o ≡ some r)
      × (r.0 ≡ true → (p : List ℕ) × (b : List ℕ) × (p ++ b ≡ all) × Taking ap' sh h f p b r.1)

  stops :
      {o : Option (Bool × Session st k)} {r : Bool × Session st k}
      (next : Session st k → Option (Bool × Session st k))
      → o ≡ some r
      → r.0 ≡ false
      → onward st k o next ≡ some (false, r.1)
  stops {o} {r} next run bad =
      ap (λ q. onward st k q next) run ∙ ap (λ b. after st k next (b, r.1)) bad

  goes_on :
      {o : Option (Bool × Session st k)} {r : Bool × Session st k}
      (next : Session st k → Option (Bool × Session st k))
      → o ≡ some r
      → r.0 ≡ true
      → onward st k o next ≡ next r.1
  goes_on {o} {r} next run fine =
      ap (λ q. onward st k q next) run ∙ ap (λ b. after st k next (b, r.1)) fine

  regrouped :
      {h : Header} {f : st.File} {s : Session st k} (p' b' p b c : List ℕ) (cs : List (List ℕ))
      → p' ++ b' ≡ (p ++ b) ++ c
      → (q : List ℕ) × (d : List ℕ) × (q ++ d ≡ (p' ++ b') ++ concat cs) × Taking ap' sh h f q d s
      → (q : List ℕ) × (d : List ℕ) × (q ++ d ≡ (p ++ b) ++ (c ++ concat cs))
        × Taking ap' sh h f q d s
  regrouped p' b' p b c cs bytes (q, d, parts, t) =
      (q, d, parts ∙ ap (λ w. w ++ concat cs) bytes ∙ append_assoc (p ++ b) c (concat cs), t)

  write_all-Ends :
      (h : Header) (f : st.File) (p b : List ℕ) (cs : List (List ℕ)) (s : Session st k)
      → IsSplit h
      → h.total_length < 2 ^ 31
      → Short cs
      → Taking ap' sh h f p b s
      → Ends h f ((p ++ b) ++ concat cs) (write_all st k cs s)
  unfolding write_all
  write_all-Ends h f p b [] s good small short t =
      ((true, s), refl, λ ok. (p, b, sym (append-nil (p ++ b)), t))
  write_all-Ends h f p b (c ∷ cs) s good small (this, rest) t =
      let (r, run, out) =
        signed_file_receive_write-Splits ap' sh h f p b c s good (omega arith) t in
      elim out [
        | inr (bad, _) ↦ (
          (false, r.1),
          stops (write_all st k cs) run bad,
          λ ok. let no : false ≡ true = ok in cc,
        )
        | inl (p', b', bytes, fine, t') ↦
            let (r', run', parts) = write_all-Ends h f p' b' cs r.1 good small rest t' in
            (
              r',
              goes_on (write_all st k cs) run fine ∙ run',
              λ ok. regrouped p' b' p b c cs bytes (parts ok),
            )
      ]

  ended :
      {h : Header} {f : st.File} {all : List ℕ} {o : Option (Bool × Session st k)}
      (s' : Session st k)
      → Ends h f all o
      → o ≡ some (true, s')
      → (p : List ℕ) × (b : List ℕ) × (p ++ b ≡ all) × Taking ap' sh h f p b s'
  ended {h} {f} s' (r, run, parts) written =
      let same : r ≡ (true, s') = cc in
      let (p, b, bytes, t) = parts (ap (λ o. o.0) same) in
      (p, b, bytes, subst (λ o. Taking ap' sh h f p b o.1) same t)

  -- After a begin that returns true, the writes of a transfer of less than 2 ^ 31 bytes, in chunks
  -- of less than 2 ^ 31 bytes, end.
  pub write_all_returns :
      (cfg : Config) (final_path tmp_path : List ℕ) (total_length : ℕ) (file_type : FileType)
      (cs : List (List ℕ)) (s : Session st k)
      → total_length < 2 ^ 31
      → Short cs
      → (Session.signed_file_receive_begin st k cfg final_path tmp_path total_length file_type s).0
        ≡ true
      → (r : Bool × Session st k) × (write_all st k cs
            (Session.signed_file_receive_begin st k cfg final_path tmp_path total_length file_type
              s).1
          ≡ some r)
  write_all_returns cfg final_path tmp_path total_length file_type cs s small short ok =
      let (f, guard, t) =
        signed_file_receive_begin-Taking ap' sh cfg final_path tmp_path total_length file_type s
          ok in
      let good =
        initial-IsSplit ap' sh cfg final_path tmp_path total_length file_type (omega arith) in
      let total = total_length_of ap' sh cfg final_path tmp_path total_length file_type in
      let (r, run, _) =
        write_all-Ends (header_of ap' sh cfg final_path tmp_path total_length file_type) f [] [] cs
          (Session.signed_file_receive_begin st k cfg final_path tmp_path total_length file_type
            s).1
          good (omega arith) short t in
      (r, run)

  -- If begin, every write and finish return true, for a transfer of less than 2 ^ 31 bytes in chunks
  -- of less than 2 ^ 31 bytes, then the chunks together are a transfer that is
  -- accepted: its length is the announced one, and it is signed for the configured keys, or no
  -- signature is required of it. The card holds what was accepted.
  pub receive_file-Accepted :
      (cfg : Config) (final_path tmp_path : List ℕ) (total_length : ℕ) (file_type : FileType)
      (cs : List (List ℕ)) (s s' : Session st k)
      → total_length < 2 ^ 31
      → Short cs
      → (Session.signed_file_receive_begin st k cfg final_path tmp_path total_length file_type s).0
        ≡ true
      → write_all st k cs
          (Session.signed_file_receive_begin st k cfg final_path tmp_path total_length file_type
            s).1
        ≡ some (true, s')
      → (Receive.signed_file_receive_finish st k s').0 ≡ true
      → (f : st.File) × Accepted ap' sh
          (header_of ap' sh cfg final_path tmp_path total_length file_type)
          f
          (concat cs)
          (Receive.signed_file_receive_finish st k s').1.disk
  receive_file-Accepted cfg final_path tmp_path total_length file_type cs s s' small short ok
        written finished =
      let (f, guard, t) =
        signed_file_receive_begin-Taking ap' sh cfg final_path tmp_path total_length file_type s
          ok in
      let good =
        initial-IsSplit ap' sh cfg final_path tmp_path total_length file_type (omega arith) in
      let total = total_length_of ap' sh cfg final_path tmp_path total_length file_type in
      let (p, b, bytes, t') =
        ended s'
          (write_all-Ends (header_of ap' sh cfg final_path tmp_path total_length file_type) f [] []
            cs
            (Session.signed_file_receive_begin st k cfg final_path tmp_path total_length file_type
              s).1
            good (omega arith) short t)
          written in
      (
        f,
        subst
            (λ all.
              Accepted ap' sh (header_of ap' sh cfg final_path tmp_path total_length file_type) f
                all (Receive.signed_file_receive_finish st k s').1.disk)
            bytes
            (signed_file_receive_finish-Accepted ap' sh
              (header_of ap' sh cfg final_path tmp_path total_length file_type) f p b s' good guard
              t' finished),
      )
