-- ===== src/Protocol/Reader/Layout.antt =====
-- The reads against the layout of a payload: a read that finds the bytes of a value returns that
-- value and steps over exactly those bytes.
use native.Mathlib.Nat.{add_assoc}
use de_be_os_rdp.Prelude.{
  ℕ, ◌+◌, ◌≤◌, ◌≡◌, refl, sym, ap, ◌∙◌, List, [], ◌∷◌, ◌++◌, append_assoc, append-nil, ok, arith,
  length, length-append, drop, take, get_or, length-drop, drop-drop, drop-length_append,
  take-length_append, le→ltb, IsU16, IsU32, ℤ, IsI32, pattern32, signed32-pattern32, pattern32-lt,
}
use de_be_os_rdp.Protocol.Bytes.{
  le16, le32, read_u16_le, read_u32_le, read_u16_le-le16, read_u32_le-le32, length-le32,
  length-le16,
}
use de_be_os_rdp.Protocol.Reader.{
  Reader, R, ◌>>=◌, ◌>>◌, return, fetch, remaining, require, here, advance, read_u8, read_u16,
  read_u32, read_i32, read_f32, read_raw, read_string,
}

-- `p` reads the value `a` from the bytes `bs`.
pub record Reads {A : Type 0} (p : R A) (bs : List ℕ) (a : A) : Type 0 where
  pub run : (r : Reader) (tail : List ℕ) → here r ≡ bs ++ tail → p r ≡ ok (a, advance r (length bs))

here-advance :
    (r : Reader) (bs tail : List ℕ) → here r ≡ bs ++ tail → here (advance r (length bs)) ≡ tail
here-advance r bs tail e =
    sym (drop-drop r.offset (length bs) r.bytes)
    ∙ ap (drop (length bs)) e
    ∙ drop-length_append bs tail

remaining-ge : (r : Reader) (bs tail : List ℕ) → here r ≡ bs ++ tail → length bs ≤ remaining r
unfolding remaining
remaining-ge r bs tail e =
    omega (arith, length-drop r.offset r.bytes, ap length e, length-append bs tail)

pub Reads-return : {A : Type 0} (a b : A) → a ≡ b → Reads (return a) [] b
Reads-return a b e = record {
  run = λ r tail h. let z : r.offset + 0 ≡ r.offset = omega arith in rw (e, z) refl;
}

pub >>=-run :
    {A B : Type 0} (p : R A) (f : A → R B) {a : A} (r : Reader) {r' : Reader}
    → p r ≡ ok (a, r')
    → (p >>= f) r ≡ f a r'
>>=-run p f r e = rw (e, ◌>>=◌)

require-ok : (n : ℕ) (r : Reader) → n ≤ remaining r → require n r ≡ ok (tt, r)
unfolding require
require-ok n r h = rw (le→ltb (remaining r) n h)

module _ {A B : Type 0} where
  pub Reads->>= :
      (p : R A) (f : A → R B) {bs cs : List ℕ} {a : A} {b : B}
      → Reads p bs a
      → Reads (f a) cs b
      → Reads (p >>= f) (bs ++ cs) b
  Reads->>= p f {bs} {cs} {a} {b} h k = record {
    run = λ r tail e.
        let e' : here r ≡ bs ++ (cs ++ tail) = e ∙ append_assoc bs cs tail in
        >>=-run p f r (h.run r (cs ++ tail) e')
        ∙ k.run (advance r (length bs)) tail (here-advance r bs (cs ++ tail) e')
        ∙ rw (length-append bs cs, add_assoc) refl;
  }

fetch-Reads :
    (n v : ℕ) (read : List ℕ → ℕ) (bs : List ℕ)
    → length bs ≡ n
    → ((tail : List ℕ) → read (bs ++ tail) ≡ v)
    → Reads (require n >> fetch n read) bs v
fetch-Reads n v read bs len value = record {
  run = λ r tail e.
      >>=-run (require n) (λ _. fetch n read) r
        (require-ok n r (rw len at (remaining-ge r bs tail e)))
      ∙ rw (e, value tail, len) refl;
}

pub read_u8-Reads : (b : ℕ) → Reads read_u8 (b ∷ []) b
unfolding read_u8
read_u8-Reads b = fetch-Reads 1 b (λ p. get_or p 0 0) (b ∷ []) refl (λ tail. refl)

pub read_u16-Reads : (v : ℕ) → IsU16 v → Reads read_u16 (le16 v) v
unfolding read_u16
read_u16-Reads v h =
    fetch-Reads 2 v read_u16_le (le16 v) (length-le16 v) (λ tail. read_u16_le-le16 v tail h)

pub read_u32-Reads : (v : ℕ) → IsU32 v → Reads read_u32 (le32 v) v
unfolding read_u32
read_u32-Reads v h =
    fetch-Reads 4 v read_u32_le (le32 v) (length-le32 v) (λ tail. read_u32_le-le32 v tail h)

pub read_f32-Reads : (v : ℕ) → IsU32 v → Reads read_f32 (le32 v) v
unfolding read_f32
read_f32-Reads = read_u32-Reads

pub read_i32-Reads : (z : ℤ) → IsI32 z → Reads read_i32 (le32 (pattern32 z)) z
unfolding read_i32
read_i32-Reads z h = rw (← append-nil (le32 (pattern32 z))) (
    Reads->>= _ _ (read_u32-Reads (pattern32 z) (pattern32-lt z h))
      (Reads-return _ _ (signed32-pattern32 z h)))

pub read_raw-Reads : (bs : List ℕ) → Reads (read_raw (length bs)) bs bs
unfolding read_raw
read_raw-Reads bs = record {
  run = λ r tail e.
      >>=-run (require (length bs)) (λ _ r. ok (take (length bs) (here r), advance r (length bs))) r
        (require-ok (length bs) r (remaining-ge r bs tail e))
      ∙ rw (e, take-length_append bs tail) refl;
}

-- A string on the wire: its length, and its bytes.
abbrev pub string_bytes : List ℕ → List ℕ
string_bytes s = le32 (length s) ++ s

pub read_string-Reads : (s : List ℕ) → IsU32 (length s) → Reads read_string (string_bytes s) s
unfolding read_string
read_string-Reads s h = Reads->>= _ _ (read_u32-Reads (length s) h) (read_raw-Reads s)
