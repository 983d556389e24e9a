-- ===== src/Drs/Records.antt =====
-- What the writer of src/net/net-tcp-drs.c puts on the wire.
use mtbolt.Common.{
  ℕ, zero, suc, ◌+◌, ◌≤◌, ◌<◌, ◌≡◌, ◌⊎◌, inl, inr, refl, sym, ◌∙◌, subst, ap, arith, Bool, true,
  false, ◌&&◌, Option, some, List, [], ◌∷◌, ◌++◌, Bytes, length, take, drop, ltb, ◌==◌,
  if◌then◌else◌, Bool-cases, append_assoc, append-nil, take-append-drop, length-take, length-drop,
  length-append, All,
}
use mtbolt.Drs.{
  Writer, record_size, record_header, reset_idle, Written, out_of_fuel, finished, paused, failed,
  start_record, append_record, skips_delay, after_record, write_records, encrypt_output_drs,
}

record_size_bounds : (i r : ℕ) → (1350 ≤ record_size i r) × (record_size i r ≤ 16244)
unfolding record_size
record_size_bounds i r = ground arith

-- The records of some chunks: headers, if the connection has TLS, and the chunks as the cipher turns them.
module _ (encrypt : ℕ → Bytes → Bytes) (tls : Bool) where
  unfoldable pub on_wire : ℕ → List Bytes → Bytes
  on_wire position [] = []
  on_wire position (chunk ∷ chunks) =
      (if tls then record_header (length chunk) else [])
      ++ (encrypt position chunk ++ on_wire (position + length chunk) chunks)

unfoldable pub concat : List Bytes → Bytes
concat [] = []
concat (c ∷ cs) = c ++ concat cs

abbrev IsFit : Bool → ℕ → Type 0
IsFit true n = n ≤ 16244
IsFit false n = Unit

-- A chunk is not empty, and fits a record if the connection has TLS.
abbrev pub IsChunk : Bool → Bytes → Type 0
IsChunk tls c = (0 < length c) × IsFit tls (length c)

-- A writer has sent some chunks of its output, in order, and nothing else.
pub record Sent (encrypt : ℕ → Bytes → Bytes) (w w' : Writer) : Type 0 where
  pub chunks : List Bytes
  pub sizes : All (IsChunk w.is_tls) chunks
  pub plain : concat chunks ++ w'.out ≡ w.out
  pub wire : w'.out_p ≡ w.out_p ++ on_wire encrypt w.is_tls w.position chunks
  pub position : w'.position ≡ w.position + length (concat chunks)
  pub tls : w'.is_tls ≡ w.is_tls

-- All is sent, or a pause is due; the fuel suffices and the writer does not fail.
abbrev LoopWrites : (ℕ → Bytes → Bytes) → Writer → Written → Type 0
LoopWrites encrypt w out_of_fuel = ⊥
LoopWrites encrypt w (failed w') = ⊥
LoopWrites encrypt w (finished w') = Sent encrypt w w' × (w'.out ≡ [])
LoopWrites encrypt w (paused w') =
    Sent encrypt w w'
    × ((w'.is_tls && w'.drs.delay_pending) ≡ true)
    × (0 < length w'.out)
    × (length w'.out < length w.out)

-- The same of the writer, which does nothing in a pause.
abbrev pub Writes : (ℕ → Bytes → Bytes) → Writer → Written → Type 0
Writes encrypt w out_of_fuel = ⊥
Writes encrypt w (failed w') = ⊥
Writes encrypt w (finished w') =
    Sent encrypt w w' × ((w'.out ≡ []) ⊎ (((w.is_tls && w.drs.delay_pending) ≡ true) × (w' ≡ w)))
Writes encrypt w (paused w') =
    Sent encrypt w w'
    × ((w'.is_tls && w'.drs.delay_pending) ≡ true)
    × (0 < length w'.out)
    × (length w'.out < length w.out)

Sent-none : (encrypt : ℕ → Bytes → Bytes) (w : Writer) → Sent encrypt w w
unfolding on_wire concat
Sent-none encrypt w = record {
  chunks = [];
  sizes = tt;
  plain = refl;
  wire = sym (append-nil w.out_p);
  position = omega arith;
  tls = refl;
}

no_bytes : (xs : Bytes) → length xs ≡ 0 → xs ≡ []
no_bytes [] h = refl
no_bytes (x ∷ xs) h = absurd (omega (arith, h))

eq_zero : (n : ℕ) → n ≡ 0 → (n == 0) ≡ true
eq_zero n h = ground (arith, h)

outer : (E : ℕ → Bytes → Bytes) (w : Writer) (r : Written) → LoopWrites E w r → Writes E w r
outer E w (finished w') h = (h.0, inl h.1)
outer E w (paused w') h = h
outer E w out_of_fuel h = h
outer E w (failed w') h = h

left_over : (a b : Bool) (n : ℕ) → (a && (b && ltb 0 n)) ≡ true → 0 < n
left_over true true n h = ground (arith, h)
left_over true false n h = absurd (ground (arith, h))
left_over false b n h = absurd (ground (arith, h))

has_tls : (a b : Bool) (n : ℕ) → (a && (b && ltb 0 n)) ≡ true → (b && true) ≡ true
has_tls true true n h = refl
has_tls true false n h = absurd (ground (arith, h))
has_tls false b n h = absurd (ground (arith, h))

-- The next record has bytes of the output, at least one, and its header is there.
record Started (w : Writer) (r : ℕ × Writer) : Type 0 where
  some_bytes : 0 < r.0
  within : r.0 ≤ length w.out
  fits : IsFit w.is_tls r.0
  out_is : r.1.out ≡ w.out
  head_is : r.1.out_p ≡ w.out_p ++ (if w.is_tls then record_header r.0 else [])
  position_is : r.1.position ≡ w.position
  tls_is : r.1.is_tls ≡ w.is_tls

-- a cipher that never fails
abbrev pub cipher : (ℕ → Bytes → Bytes) → ℕ → Bytes → Option Bytes
cipher E p b = some (E p b)

module _ (second : ℕ) (random : ℕ → ℕ) (E : ℕ → Bytes → Bytes) (delays : Bool) where
  start_record-Started :
      (now : ℕ) (w : Writer)
      → 0 < length w.out
      → Started w (start_record second random (cipher E) delays now w)
  unfolding start_record
  start_record-Started now w pos_len = elim (Bool-cases w.is_tls) [
    | inr plain ↦ rw plain (record {
      some_bytes = pos_len;
      within = omega arith;
      fits = tt;
      out_is = refl;
      head_is = sym (append-nil w.out_p);
      position_is = refl;
      tls_is = refl;
    })
    | inl tls ↦
        let size = record_size_bounds (reset_idle second now w.drs).record_index (random w.draws) in
        rw tls (record {
          some_bytes = ground (arith, size.0, pos_len);
          within = ground (arith, size.1);
          fits = ground (arith, size.1);
          out_is = refl;
          head_is = refl;
          position_is = refl;
          tls_is = refl;
        })
  ]

  -- A pause is set while bytes are left; nothing is sent.
  after_record_lem :
      (v : Writer)
      → (let a = after_record second random (cipher E) delays v in
          (a.0.out ≡ v.out)
          × (a.0.out_p ≡ v.out_p)
          × (a.0.position ≡ v.position)
          × (a.0.is_tls ≡ v.is_tls)
          × (a.1 ≡ true → ((a.0.is_tls && a.0.drs.delay_pending) ≡ true) × (0 < length v.out)))
  unfolding after_record
  after_record_lem v = elim (Bool-cases (delays && (v.is_tls && ltb 0 (length v.out)))) [
    | inr f ↦ rw f (refl, refl, refl, refl, λ t. absurd (ground (arith, t)))
    | inl t ↦ elim (Bool-cases (skips_delay second random (cipher E) delays v)) [
      | inl k ↦ rw (t, k) (refl, refl, refl, refl, λ t'. absurd (ground (arith, t')))
      | inr k ↦
          rw (t, k)
            (
              refl,
              refl,
              refl,
              refl,
              λ t'. (
                has_tls delays v.is_tls (length v.out) t,
                left_over delays v.is_tls (length v.out) t,
              ),
            )
    ]
  ]

  Sent-cons :
      (w : Writer) (r : ℕ × Writer) (v w' : Writer)
      → Started w r
      → v.out ≡ drop r.0 r.1.out
      → v.out_p ≡ r.1.out_p ++ E w.position (take r.0 w.out)
      → v.position ≡ r.1.position + r.0
      → v.is_tls ≡ r.1.is_tls
      → Sent E v w'
      → Sent E w w'
  unfolding on_wire concat
  Sent-cons w r v w' h out_is wire_is position_is tls_is s =
      let chunk = take r.0 w.out in
      let size : length chunk ≡ r.0 = omega (arith, length-take r.0 w.out, h.within) in
      let tls_v : v.is_tls ≡ w.is_tls = tls_is ∙ h.tls_is in
      let position_v : v.position ≡ w.position + length chunk =
        omega (arith, position_is, h.position_is, size) in
      let head : ℕ → Bytes = λ n. if w.is_tls then record_header n else [] in
      let ct = E w.position chunk in
      let rest = on_wire E w.is_tls (w.position + length chunk) s.chunks in
      let rest_is : on_wire E v.is_tls v.position s.chunks ≡ rest =
        ap (λ k. on_wire E k v.position s.chunks) tls_v
        ∙ ap (λ n. on_wire E w.is_tls n s.chunks) position_v in
      record {
        chunks = chunk ∷ s.chunks;
        sizes = (
          (omega (arith, size, h.some_bytes), subst (IsFit w.is_tls) (sym size) h.fits),
          subst (λ k. All (IsChunk k) s.chunks) tls_v s.sizes,
        );
        plain =
            append_assoc chunk (concat s.chunks) w'.out
            ∙ ap (λ x. chunk ++ x) (s.plain ∙ out_is ∙ ap (drop r.0) h.out_is)
            ∙ take-append-drop r.0 w.out;
        wire =
            s.wire
            ∙ ap (λ x. v.out_p ++ x) rest_is
            ∙ ap (λ x. x ++ rest) (wire_is ∙ ap (λ x. x ++ ct) h.head_is)
            ∙ append_assoc (w.out_p ++ head r.0) ct rest
            ∙ append_assoc w.out_p (head r.0) (ct ++ rest)
            ∙ ap (λ n. w.out_p ++ (head n ++ (ct ++ rest))) (sym size);
        position = omega (
          arith,
          s.position,
          position_is,
          h.position_is,
          size,
          length-append chunk (concat s.chunks),
        );
        tls = s.tls ∙ tls_is ∙ h.tls_is;
      }

  follow :
      (w a : Writer) (b : Bool) (rest : Written)
      → ((w' : Writer) → Sent E a w' → Sent E w w')
      → (b ≡ true → ((a.is_tls && a.drs.delay_pending) ≡ true) × (0 < length a.out))
      → length a.out < length w.out
      → LoopWrites E a rest
      → LoopWrites E w (elim b [ true ↦ paused a | false ↦ rest ])
  follow w a true rest sent pause less h =
      (sent a (Sent-none E a), (pause refl).0, (pause refl).1, less)
  follow w a false (finished w') sent pause less h = (sent w' h.0, h.1)
  follow w a false (paused w') sent pause less h = (sent w' h.0, h.1, h.2, omega (arith, h.3, less))
  follow w a false out_of_fuel sent pause less h = h
  follow w a false (failed w') sent pause less h = h

  write_records-LoopWrites :
      (now fuel : ℕ) (w : Writer)
      → length w.out ≤ fuel
      → LoopWrites E w (write_records second random (cipher E) delays now fuel w)
  unfolding write_records
  write_records-LoopWrites now zero w le =
      let none_left : length w.out ≡ 0 = omega (arith, le) in
      rw (eq_zero (length w.out) none_left) (Sent-none E w, no_bytes w.out none_left)
  write_records-LoopWrites now (suc fuel) w le = elim (Bool-cases (length w.out == 0)) [
    | inl z ↦ rw z (Sent-none E w, no_bytes w.out (ground (arith, z)))
    | inr nz ↦
        let r = start_record second random (cipher E) delays now w in
        let h = start_record-Started now w (ground (arith, nz)) in
        let v = append_record r.0 (E w.position (take r.0 w.out)) r.1 in
        let after = after_record second random (cipher E) delays v in
        let kept = after_record_lem v in
        let less : length after.0.out < length w.out = omega (
          arith,
          ap length kept.0,
          length-drop r.0 r.1.out,
          ap length h.out_is,
          h.some_bytes,
          h.within,
        ) in
        rw nz (
          follow w after.0 after.1 (write_records second random (cipher E) delays now fuel after.0)
            (λ w'. Sent-cons w r after.0 w' h kept.0 kept.1 kept.2 kept.3)
            (λ t. ((kept.4 t).0, omega (arith, (kept.4 t).1, ap length kept.0))) less
            (write_records-LoopWrites now fuel after.0 (omega (arith, less, le))))
  ]

  -- If the cipher never fails, the writer stops, and has sent some chunks of its output, in order and
  -- each turned by the cipher at its place in the stream; with TLS each stands behind a header with its
  -- length, at most 16244. Nothing is left then, or a timer is set, or one was set and nothing is sent.
  pub encrypt_output_drs-Writes :
      (now : ℕ) (w : Writer) → Writes E w (encrypt_output_drs second random (cipher E) delays now w)
  unfolding encrypt_output_drs
  encrypt_output_drs-Writes now w = elim (Bool-cases (w.is_tls && w.drs.delay_pending)) [
    | inl t ↦ rw t (Sent-none E w, inr (t, refl))
    | inr f ↦ rw f (
        outer E w (write_records second random (cipher E) delays now (length w.out) w)
          (write_records-LoopWrites now (length w.out) w (omega arith)))
  ]
