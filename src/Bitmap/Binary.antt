-- ===== src/Bitmap/Binary.antt =====
-- MarshalBinary and UnmarshalBinary: a bitmap as bytes, the number of words first, all little-endian.
use access_management.Prelude.{
  ℕ, zero, suc, ◌+◌, ◌*◌, ◌/◌, ◌%◌, ◌^◌, ◌≤◌, ◌<◌, ◌≡◌, refl, false, List, [], ◌∷◌, ◌++◌, ltb,
  length, drop, length-append, if◌then◌else◌, arith, ap, ◌∙◌, subst,
}
use access_management.Bitmap.Words.{Fits, word_bits}
use access_management.Bitmap.Cells.{cell}
use access_management.Bitmap.Sets.{Bitmap}
use access_management.Bitmap.Consistency.{IsBitmap}

-- PutUint32 and PutUint64, with n bytes
unfoldable pub put_uint : ℕ → ℕ → List ℕ
put_uint zero w = []
put_uint (suc n) w = w % 256 ∷ put_uint n (w / 256)

-- Uint32 and Uint64, of the first n bytes; a buffer that is too short makes Go panic, and reads zeros here.
unfoldable pub get_uint : ℕ → List ℕ → ℕ
get_uint zero buf = 0
get_uint (suc n) [] = 0
get_uint (suc n) (c ∷ buf) = c + 256 * get_uint n buf

unfoldable pub put_words : List ℕ → List ℕ
put_words [] = []
put_words (w ∷ ws) = put_uint 8 w ++ put_words ws

unfoldable pub get_words : ℕ → List ℕ → List ℕ
get_words zero buf = []
get_words (suc n) buf = get_uint 8 buf ∷ get_words n (drop 8 buf)

-- MarshalBinary
unfoldable pub marshal_binary : Bitmap → List ℕ
marshal_binary b = put_uint 4 (length b.words) ++ (put_words b.words ++ put_words b.meta)

-- The decoded bitmap and the number of bytes read, or the error with the lengths that it reports.
pub data Unmarshalled : Type 0 where
  decoded : Bitmap → ℕ → Unmarshalled
  buffer_too_short : ℕ → Unmarshalled
  buffer_size : ℕ → ℕ → Unmarshalled

unfoldable pub expected_length : ℕ → ℕ
expected_length w_len = 4 + w_len * 8 + (w_len + 63) / 64 * 8

unfoldable pub unmarshal_words : List ℕ → ℕ → Unmarshalled
unmarshal_words buf w_len =
    if ltb (length buf) (expected_length w_len)
    then buffer_size (length buf) (expected_length w_len)
    else decoded
        (record {
          words = get_words w_len (drop 4 buf);
          meta = get_words ((w_len + 63) / 64) (drop (4 + w_len * 8) buf);
        })
        (expected_length w_len)

-- UnmarshalBinary
unfoldable pub unmarshal_binary : List ℕ → Unmarshalled
unmarshal_binary buf =
    if ltb (length buf) 4
    then buffer_too_short (length buf)
    else unmarshal_words buf (get_uint 4 buf)

-- A number of at most n bytes.
Bytes : ℕ → ℕ → Type 0
Bytes zero w = w ≡ 0
Bytes (suc n) w = Bytes n (w / 256)

byte_bits : ℕ → ℕ
byte_bits zero = 0
byte_bits (suc n) = suc (suc (suc (suc (suc (suc (suc (suc (byte_bits n))))))))

Fits-Bytes : (n w : ℕ) → Fits (byte_bits n) w → Bytes n w
unfolding Fits Bytes byte_bits
Fits-Bytes zero w f = f
Fits-Bytes (suc n) w f =
    let e : w / 2 / 2 / 2 / 2 / 2 / 2 / 2 / 2 ≡ w / 256 = omega arith in
    Fits-Bytes n (w / 256) (subst (Fits (byte_bits n)) e f)

get_uint-put_uint : (n w : ℕ) (rest : List ℕ) → Bytes n w → get_uint n (put_uint n w ++ rest) ≡ w
unfolding get_uint put_uint Bytes
get_uint-put_uint zero w rest f = omega arith
get_uint-put_uint (suc n) w rest f = omega (arith, get_uint-put_uint n (w / 256) rest f)

length-put_uint : (n w : ℕ) → length (put_uint n w) ≡ n
unfolding put_uint
length-put_uint zero w = refl
length-put_uint (suc n) w = omega (arith, length-put_uint n (w / 256))

length-put_words : (ws : List ℕ) → length (put_words ws) ≡ length ws * 8
unfolding put_words
length-put_words [] = refl
length-put_words (w ∷ ws) =
    omega
      (arith, length-append (put_uint 8 w) (put_words ws), length-put_uint 8 w, length-put_words ws)

drop-append : {A : Type 0} (n : ℕ) (xs ys : List A) → length xs ≡ n → drop n (xs ++ ys) ≡ ys
drop-append zero [] ys h = refl
drop-append zero (x ∷ xs) ys h = absurd (omega arith)
drop-append (suc n) [] ys h = absurd (omega arith)
drop-append (suc n) (x ∷ xs) ys h = drop-append n xs ys (omega arith)

append_assoc : {A : Type 0} (xs ys zs : List A) → (xs ++ ys) ++ zs ≡ xs ++ (ys ++ zs)
append_assoc [] ys zs = refl
append_assoc (x ∷ xs) ys zs = ap (λ l. x ∷ l) (append_assoc xs ys zs)

get_words-put_words :
    (ws rest : List ℕ)
    → ((i : ℕ) → Fits word_bits (cell ws i))
    → get_words (length ws) (put_words ws ++ rest) ≡ ws
unfolding get_words put_words cell byte_bits word_bits
get_words-put_words [] rest f = refl
get_words-put_words (w ∷ ws) rest f =
    rw
      (
        append_assoc (put_uint 8 w) (put_words ws) rest,
        get_uint-put_uint 8 w (put_words ws ++ rest) (Fits-Bytes 8 w (f 0)),
        drop-append 8 (put_uint 8 w) (put_words ws ++ rest) (length-put_uint 8 w),
      )
      (ap (λ l. w ∷ l) (get_words-put_words ws rest (λ i. f (suc i))))

four_bytes : (n : ℕ) → 4 ≤ expected_length n
unfolding expected_length
four_bytes n = omega arith

module _ (b : Bitmap) (rest : List ℕ) (v : IsBitmap b) (small : length b.words < 2 ^ 32) where
  abbrev buffer : List ℕ
  buffer = marshal_binary b ++ rest

  buffer_parts :
      buffer ≡ put_uint 4 (length b.words) ++ (put_words b.words ++ (put_words b.meta ++ rest))
  unfolding marshal_binary
  buffer_parts =
      append_assoc (put_uint 4 (length b.words)) (put_words b.words ++ put_words b.meta) rest
      ∙ ap (λ l. put_uint 4 (length b.words) ++ l)
          (append_assoc (put_words b.words) (put_words b.meta) rest)

  length-buffer : length buffer ≡ expected_length (length b.words) + length rest
  unfolding expected_length
  length-buffer = omega (
    arith,
    ap (λ (l : List ℕ). length l) buffer_parts,
    v.meta_length,
    length-append (put_uint 4 (length b.words)) (put_words b.words ++ (put_words b.meta ++ rest)),
    length-append (put_words b.words) (put_words b.meta ++ rest),
    length-append (put_words b.meta) rest,
    length-put_uint 4 (length b.words),
    length-put_words b.words,
    length-put_words b.meta,
  )

  length-read : get_uint 4 buffer ≡ length b.words
  unfolding Bytes
  length-read = rw buffer_parts (
      get_uint-put_uint 4 (length b.words) (put_words b.words ++ (put_words b.meta ++ rest))
        (omega arith))

  words-read : get_words (length b.words) (drop 4 buffer) ≡ b.words
  words-read =
      rw
        (
          buffer_parts,
          drop-append 4 (put_uint 4 (length b.words))
              (put_words b.words ++ (put_words b.meta ++ rest))
              (length-put_uint 4 (length b.words)),
        )
        (get_words-put_words b.words (put_words b.meta ++ rest) v.words_fit)

  meta-read : get_words ((length b.words + 63) / 64) (drop (4 + length b.words * 8) buffer) ≡ b.meta
  meta-read =
      let front = put_uint 4 (length b.words) ++ put_words b.words in
      let l : length front ≡ 4 + length b.words * 8 = omega (
        arith,
        length-append (put_uint 4 (length b.words)) (put_words b.words),
        length-put_uint 4 (length b.words),
        length-put_words b.words,
      ) in
      rw
        (
          buffer_parts,
          ← append_assoc (put_uint 4 (length b.words)) (put_words b.words)
              (put_words b.meta ++ rest),
          drop-append (4 + length b.words * 8) front (put_words b.meta ++ rest) l,
          ← v.meta_length,
        )
        (get_words-put_words b.meta rest v.metas_fit)

  -- UnmarshalBinary of what MarshalBinary writes, with anything after it, gives the bitmap back and
  -- the number of bytes written; the bitmap has fewer than 2 ^ 32 words.
  pub unmarshal_binary-marshal_binary :
      unmarshal_binary (marshal_binary b ++ rest) ≡ decoded b (length (marshal_binary b))
  unfolding unmarshal_binary unmarshal_words
  unmarshal_binary-marshal_binary =
      let total : expected_length (length b.words) ≡ length (marshal_binary b) =
        omega (arith, length-buffer, length-append (marshal_binary b) rest) in
      let long : ltb (length buffer) 4 ≡ false =
        ground (arith, length-buffer, four_bytes (length b.words)) in
      let enough : ltb (length buffer) (expected_length (length b.words)) ≡ false =
        ground (arith, length-buffer) in
      rw (long, length-read, enough, words-read, meta-read) (ap (λ n. decoded b n) total)
