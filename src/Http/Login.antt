-- ===== src/Http/Login.antt =====
-- remote_http.c: a client is let in exactly for the configured credentials.
use mega65_expansion_board_i.Base.{
  ℕ, ◌+◌, ◌≤◌, ◌<◌, ◌≡◌, refl, sym, ◌∙◌, ◌↔◌, Bool, true, false, ◌&&◌, ◌||◌, some, List, [], ◌∷◌,
  ◌++◌, arith, length, take, ◌==◌, ltb, Bool-cases, inl, inr, take-all, length-append, le→ltb,
}
use mega65_expansion_board_i.Base.Text.{codes, cstr, ci_starts_with, bytes_eq, bytes_eq_iff}
use mega65_expansion_board_i.Http.Strings.{snprintf}
use mega65_expansion_board_i.Http.Names.{is_empty}
use mega65_expansion_board_i.RemoteAuth.Scan.{break_at}
use mega65_expansion_board_i.Http.RoundTrip.{Bytes}
use mega65_expansion_board_i.Http.Auth.{
  header_value, header_line, same_credentials, authorized, basic_auth_ok,
}
use mega65_expansion_board_i.Http.Base64.{base64, base64_decode-base64}

-- no byte is NUL
abbrev pub NoNul : List ℕ → Type 0
NoNul [] = Unit {0}
NoNul (c ∷ s) = (0 < c) × NoNul s

cstr-NoNul : (s : List ℕ) → NoNul s → cstr s ≡ s
unfolding cstr
cstr-NoNul [] h = refl
cstr-NoNul (c ∷ s) (pos, h) =
    let no_nul : (c == 0) ≡ false = ground arith in let ih = cstr-NoNul s h in simp (no_nul, ih)

base64_long : (s : List ℕ) → 0 < length s → 7 ≤ length (codes "Basic " ++ base64 s)
base64_long [] h = absurd (omega arith)
base64_long (a ∷ []) h = omega arith
base64_long (a ∷ b ∷ []) h = omega arith
base64_long (a ∷ b ∷ c ∷ s) h = omega arith

-- what begins the line begins the value
line_prefix :
    (stop : ℕ → Bool) (auth prefix rest : List ℕ)
    → (break_at stop auth).0 ≡ prefix ++ rest
    → ci_starts_with auth prefix ≡ true
unfolding break_at ci_starts_with
line_prefix stop auth [] rest e = refl
line_prefix stop [] (c ∷ prefix) rest e = cc
line_prefix stop (x ∷ auth) (c ∷ prefix) rest e = elim (Bool-cases (stop x)) [
  | inl ends ↦ let no_byte : [] ≡ c ∷ (prefix ++ rest) = simp ends at e in cc
  | inr goes ↦
      let both : x ∷ (break_at stop auth).0 ≡ c ∷ (prefix ++ rest) = simp goes at e in
      let tail : (break_at stop auth).0 ≡ prefix ++ rest = cc in
      let head : x ≡ c = cc in let ih = line_prefix stop auth prefix rest tail in ground arith
]

line_scheme :
    (auth prefix rest : List ℕ)
    → header_line auth ≡ prefix ++ rest
    → ci_starts_with auth prefix ≡ true
unfolding header_line
line_scheme auth prefix rest e = line_prefix (λ c. c == 13 || c == 10) auth prefix rest e

module _ (user password header s auth : List ℕ)
    (configured : (is_empty user && is_empty password) ≡ false)
    (fits : length user + length password < 111)
    (sent : header_value header (codes "Authorization") ≡ some auth)
    (line : header_line auth ≡ codes "Basic " ++ base64 s) (bytes : Bytes s) (text : NoNul s)
    (short : length s < 112) (full : 0 < length s) where
  -- A client that sends the base64 of a text as its Basic credentials is let in exactly if the text is
  -- the configured user name, a colon and the password; credentials are configured and, with
  -- the colon, shorter than 112 bytes, and so is the text.
  pub basic_auth_ok-sent :
      (basic_auth_ok user password header ≡ true) ↔ (s ≡ user ++ b':' ∷ password)
  unfolding basic_auth_ok authorized same_credentials snprintf
  basic_auth_ok-sent =
      let expected = user ++ b':' ∷ password in
      let size = length-append user (b':' ∷ password) in
      let whole : take 111 expected ≡ expected = take-all 111 expected (omega arith) in
      let long : ltb (length (codes "Basic " ++ base64 s)) 7 ≡ false =
        le→ltb _ 7 (base64_long s full) in
      let scheme : ci_starts_with auth (codes "Basic ") ≡ true =
        line_scheme auth (codes "Basic ") (base64 s) line in
      let decoded = base64_decode-base64 s 112 bytes short in
      let plain = cstr-NoNul s text in
      let result : basic_auth_ok user password header ≡ bytes_eq s expected = simp (
        basic_auth_ok, configured, sent, authorized, line, long, scheme, decoded, same_credentials,
        plain, whole,
      ) in
      (
        λ h. (bytes_eq_iff s expected).0 (sym result ∙ h),
        λ e. result ∙ (bytes_eq_iff s expected).1 e,
      )
