-- ===== src/Tls/Sni/Sound.antt =====
-- The reads of `tls_parse_sni` of src/net/net-tls-parse.c, and the names that it returns.
use mtbolt.Common.{
  ℕ, zero, suc, ◌+◌, ◌≤◌, ◌<◌, ◌≡◌, ◌≢◌, sym, ◌∙◌, ap, arith, false, not, ◌||◌, Bytes, length,
  length-take, length-drop, take, drop, All, ltb, leb, ◌==◌, eq_of_not_ne, ==_iff, take-drop-suc,
}
use mtbolt.Common.Parse.{
  Ensures, returns, Ensures-reject_if, Ensures-bind, Ensures-mono, Ensures-fetch, Ensures-read,
  Ensures-if,
}
use mtbolt.Tls.Read.{length_at, read_length-ok}
use mtbolt.Tls.Sni.{has_zero, parse_name, find_name, parse_sni}

-- A name that the parser may return: it stands in the hello at `at`, and ends in the caller's buffer
-- with room for the NUL, which it does not hold itself.
pub record Name (client_hello : Bytes) (len max_domain_len : ℕ) (domain : Bytes) : Type 0 where
  pub at : ℕ
  pub stands : domain ≡ take (length domain) (drop at client_hello)
  pub inside : at + length domain ≤ len
  pub nonempty : 0 < length domain
  pub terminated : length domain < max_domain_len
  pub no_zero : All (λ c. c ≢ 0) domain

module _ (client_hello : Bytes) (len : ℕ) (fits : len ≤ length client_hello) where
  name_within :
      (pos n size : ℕ) → pos + size ≤ len → not (n + 5 == size) ≡ false → pos + 2 + 1 + 2 + n ≤ len
  name_within pos n size h e = omega (arith, eq_of_not_ne (n + 5) size e)

  name_length :
      (at n : ℕ) (d : Bytes) → at + n ≤ len → d ≡ take n (drop at client_hello) → length d ≡ n
  name_length at n d h e =
      omega (arith, ap length e, length-take n (drop at client_hello), length-drop at client_hello)

  name :
      (max at n : ℕ) (d : Bytes)
      → at + n ≤ len
      → All (λ c. c ≢ 0) (take n (drop at client_hello))
      → (leb max n || n == 0) ≡ false
      → d ≡ take n (drop at client_hello)
      → Name client_hello len max d
  name max at n d h a b e =
      let size : length d ≡ n = name_length at n d h e in
      record {
        at = at;
        stands = e ∙ ap (λ k. take k (drop at client_hello)) (sym size);
        inside = omega arith;
        nonempty = ground arith;
        terminated = ground arith;
        no_zero = rw e a;
      }

  has_zero-Ensures :
      (n pos : ℕ)
      → pos + n ≤ len
      → Ensures
          (λ z. z ≡ false → All (λ c. c ≢ 0) (take n (drop pos client_hello)))
          (has_zero n client_hello pos)
  unfolding has_zero
  has_zero-Ensures zero pos h = returns (λ _. tt)
  has_zero-Ensures (suc n) pos h = Ensures-bind (Ensures-read client_hello pos (omega arith)) λ c e.
      Ensures-if (c == 0) (λ _. returns (λ f. cc))
        λ ne. Ensures-mono (has_zero-Ensures n (pos + 1) (omega arith)) λ z rest f.
          rw (take-drop-suc client_hello pos n (omega arith))
            ((λ z0. cc (ne, (==_iff c 0).1 (e ∙ z0))), rest f)

  parse_name-Name :
      (max pos size : ℕ)
      → pos + size ≤ len
      → Ensures (Name client_hello len max) (parse_name client_hello len max pos size)
  unfolding parse_name
  parse_name-Name max pos size h = Ensures-reject_if (ltb len (pos + 5)) λ room.
      rw (read_length-ok client_hello pos (ground arith)) (
        Ensures-reject_if (not (length_at client_hello pos + 2 == size)) λ inner.
          Ensures-bind (Ensures-read client_hello (pos + 2) (ground arith)) λ t e.
            Ensures-reject_if (not (t == 0)) λ _.
              rw (read_length-ok client_hello (pos + 2 + 1) (ground arith)) (
                let n = length_at client_hello (pos + 2 + 1) in
                let at = pos + 2 + 1 + 2 in
                Ensures-reject_if (not (n + 5 == size)) λ outer.
                  let within : at + n ≤ len = name_within pos n size h outer in
                  Ensures-bind (has_zero-Ensures n at within) λ zeros none.
                    Ensures-reject_if zeros λ no_zeros.
                      Ensures-reject_if (leb max n || n == 0) λ bounds.
                        Ensures-mono (Ensures-fetch client_hello at n (omega arith))
                          λ d e'. name max at n d within (none no_zeros) bounds e'))

  find_name-Name :
      (fuel max pos : ℕ)
      → pos ≤ len
      → len < pos + fuel
      → Ensures (Name client_hello len max) (find_name fuel client_hello len max pos)
  unfolding find_name
  find_name-Name zero max pos h f = absurd (omega arith)
  find_name-Name (suc fuel) max pos h f = Ensures-reject_if (ltb len (pos + 4)) λ room.
      rw (read_length-ok client_hello pos (ground arith)) (
        rw (read_length-ok client_hello (pos + 2) (ground arith)) (
          let size = length_at client_hello (pos + 2) in
          Ensures-reject_if (ltb len (pos + 2 + 2 + size)) λ inside.
            let within : pos + 2 + 2 + size ≤ len = ground arith in
            Ensures-if (length_at client_hello pos == 0)
              (λ _. parse_name-Name max (pos + 2 + 2) size within)
              (λ _. find_name-Name fuel max (pos + 2 + 2 + size) within (omega arith))))

-- For every buffer of at least `len` bytes the search for the server name reads inside the buffer
-- and ends. A name that it returns is a nonempty range of the first `len` bytes, holds no zero byte,
-- and is shorter than `max_domain_len`, so its NUL fits the caller's buffer.
pub parse_sni-Name :
    (client_hello : Bytes) (len max_domain_len : ℕ)
    → len ≤ length client_hello
    → Ensures (Name client_hello len max_domain_len) (parse_sni client_hello len max_domain_len)
unfolding parse_sni
parse_sni-Name client_hello len max fits = Ensures-reject_if (ltb len (76 + 2)) λ room.
    rw (read_length-ok client_hello 76 (ground arith)) (
      let size = length_at client_hello 76 in
      Ensures-reject_if (ltb len (76 + 2 + (size + 4))) λ inside.
        find_name-Name client_hello len fits (len + 1) max (76 + 2 + (size + 4)) (ground arith)
          (omega arith))
