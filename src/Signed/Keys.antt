-- ===== src/Signed/Keys.antt =====
-- src/signed_file.c: which keys accept a signature, in the loop over `trusted_keys`.
use mega65_expansion_board_i.Base.{
  ℕ, ◌≡◌, ◌↔◌, ◌⊎◌, inl, inr, refl, true, false, some, List, [], ◌∷◌, slice, take, arith,
  Bool-cases, Option-cases, ==_iff,
}
use mega65_expansion_board_i.Base.Text.{bytes_eq_iff}
use mega65_expansion_board_i.Signed.Block.{
  Key, Crypto, is_zero16, sha256_once, key_id_for, verify_p256_signature, key_accepts,
  any_key_accepts,
}

-- a field of zeros alone
abbrev pub IsBlank : List ℕ → Type 0
IsBlank [] = Unit
IsBlank (x ∷ xs) = (x ≡ 0) × IsBlank xs

-- Mbed TLS reads the group, the point of the key and the two halves of the signature, and the ECDSA
-- check passes on them.
pub record Verifies (k : Crypto) (key : Key) (digest sig : List ℕ) : Type 0 where
  pub group : k.Group
  pub point : k.Point
  pub r : k.Mpi
  pub s : k.Mpi
  pub group-is : k.group_load ≡ some group
  pub point-is : k.point_read group key.bytes ≡ some point
  pub r-is : k.mpi_read (take 32 sig) ≡ some r
  pub s-is : k.mpi_read (slice 32 32 sig) ≡ some s
  pub checked : k.ecdsa_verify group digest point r s ≡ true

-- The key is one of P-256, the block names it by the first 16 bytes of its hash or names no key, and
-- its signature verifies.
pub record Accepts (k : Crypto) (want_id digest sig : List ℕ) (key : Key) : Type 0 where
  pub is_p256 : key.is_p256 ≡ true
  pub identified :
      IsBlank want_id
      ⊎ ((hash : List ℕ) × (sha256_once k key.bytes ≡ some hash) × (take 16 hash ≡ want_id))
  pub verifies : Verifies k key digest sig

-- One of the keys is as stated.
pub data SomeKey (P : Key → Type 0) : List Key → Type 0 where
  here : {key : Key} {keys : List Key} → P key → SomeKey P (key ∷ keys)
  there : {key : Key} {keys : List Key} → SomeKey P keys → SomeKey P (key ∷ keys)

is_zero16_iff : (id : List ℕ) → (is_zero16 id ≡ true) ↔ IsBlank id
unfolding is_zero16
is_zero16_iff [] = (λ h. tt, λ h. refl)
is_zero16_iff (x ∷ xs) =
    let (f, g) = is_zero16_iff xs in
    (λ h. ((==_iff x 0).0 (ground arith), f (ground arith)), λ (z, b). let e = g b in ground arith)

module _ (k : Crypto) where
  verify_p256_signature_iff :
      (key : Key) (digest sig : List ℕ)
      → (verify_p256_signature k key digest sig ≡ true) ↔ Verifies k key digest sig
  unfolding verify_p256_signature
  verify_p256_signature_iff key digest sig = (
    λ h. elim (Option-cases k.group_load) [
      | inl missing ↦ let x : false ≡ true = simp (verify_p256_signature, missing) at h in cc
      | inr (g, eg) ↦ elim (Option-cases (k.point_read g key.bytes)) [
        | inl missing ↦ let x : false ≡ true = simp (verify_p256_signature, eg, missing) at h in cc
        | inr (q, eq) ↦ elim (Option-cases (k.mpi_read (take 32 sig))) [
          | inl missing ↦
              let x : false ≡ true = simp (verify_p256_signature, eg, eq, missing) at h in cc
          | inr (r, er) ↦ elim (Option-cases (k.mpi_read (slice 32 32 sig))) [
            | inl missing ↦
                let x : false ≡ true = simp (verify_p256_signature, eg, eq, er, missing) at h in cc
            | inr (s, es) ↦ record {
              group = g;
              point = q;
              r = r;
              s = s;
              group-is = eg;
              point-is = eq;
              r-is = er;
              s-is = es;
              checked = simp (verify_p256_signature, eg, eq, er, es) at h;
            }
          ]
        ]
      ]
    ],
    λ v. simp (verify_p256_signature, v.group-is, v.point-is, v.r-is, v.s-is) v.checked,
  )

  key_accepts_iff :
      (want_id digest sig : List ℕ) (key : Key)
      → (key_accepts k want_id digest sig key ≡ true) ↔ Accepts k want_id digest sig key
  unfolding key_accepts key_id_for
  key_accepts_iff want_id digest sig key =
      let zero_iff = is_zero16_iff want_id in
      let sig_iff = verify_p256_signature_iff key digest sig in
      (
        λ h. record {
          is_p256 = ground arith;
          identified = elim (Bool-cases (is_zero16 want_id)) [
            | inl blank ↦ inl (zero_iff.0 blank)
            | inr named ↦ elim (Option-cases (sha256_once k key.bytes)) [
              | inl missing ↦ absurd (ground arith)
              | inr (hash, e) ↦
                  inr (hash, e, (bytes_eq_iff (take 16 hash) want_id).0 (ground arith))
            ]
          ];
          verifies = sig_iff.0 (ground arith);
        },
        λ a. elim a.identified [
          | inl blank ↦
              let z = zero_iff.1 blank in
              let p = a.is_p256 in let v = sig_iff.1 a.verifies in ground arith
          | inr (hash, e, named) ↦
              let n = (bytes_eq_iff (take 16 hash) want_id).1 named in
              let p = a.is_p256 in
              let v = sig_iff.1 a.verifies in
              simp (key_accepts, key_id_for, p, e, n, v) (ground arith)
        ],
      )

  any_key_accepts-SomeKey :
      (id d sig : List ℕ) (keys : List Key)
      → any_key_accepts k id d sig keys ≡ true
      → SomeKey (Accepts k id d sig) keys
  unfolding any_key_accepts
  any_key_accepts-SomeKey id d sig [] h = cc
  any_key_accepts-SomeKey id d sig (key ∷ keys) h = elim (Bool-cases (key_accepts k id d sig key)) [
    | inl yes' ↦ here ((key_accepts_iff id d sig key).0 yes')
    | inr no' ↦ there (any_key_accepts-SomeKey id d sig keys (rw no' at h))
  ]

  SomeKey-any_key_accepts :
      (id d sig : List ℕ) {keys : List Key}
      → SomeKey (Accepts k id d sig) keys
      → any_key_accepts k id d sig keys ≡ true
  unfolding any_key_accepts
  SomeKey-any_key_accepts id d sig (here {key} a) =
      let e = (key_accepts_iff id d sig key).1 a in ground arith
  SomeKey-any_key_accepts id d sig (there {key} a) =
      ground (arith, SomeKey-any_key_accepts id d sig a)

  -- The loop over the keys accepts exactly if one of them does.
  pub any_key_accepts_iff :
      (id d sig : List ℕ) (keys : List Key)
      → (any_key_accepts k id d sig keys ≡ true) ↔ SomeKey (Accepts k id d sig) keys
  any_key_accepts_iff id d sig keys =
      (any_key_accepts-SomeKey id d sig keys, SomeKey-any_key_accepts id d sig)
