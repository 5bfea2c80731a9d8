-- ===== src/Modbus/Conn.antt =====
-- `ReadFull` of internal/modbus/common.go over a connection. What the peer sends arrives in
-- chunks, cut anywhere; each conn.Read takes a chunk or, where the buffer is smaller, its front.
-- Past the last chunk a read fails (a timeout, a reset, the end of the stream).
use sofar_hyd_diag.Prelude.{true, false, subst}
use sofar_hyd_diag.Prelude.{
  ℕ, zero, suc, ◌+◌, ◌-◌, ◌*◌, ◌/◌, ◌%◌, ◌≤◌, ◌<◌, ◌≡◌, refl, ap, sym, inl, inr, Bool-cases, String,
  Option, List, [], ◌∷◌, ◌++◌, length, take, drop, get_or, leb, length-append, arith,
}

pub record Conn : Type 0 where
  pub incoming : List (List ℕ)
  pub read_error : String  -- why a read past the last chunk fails
  pub write_error : Option String  -- why a write fails, if it does
  pub written : List (List ℕ)  -- newest first

pub data ReadResult : Type 0 where
  full : List ℕ → List (List ℕ) → ReadResult
  short : List ℕ → String → ReadResult

abbrev prepend : List ℕ → ReadResult → ReadResult
prepend front (full bytes rest) = full (front ++ bytes) rest
prepend front (short bytes e) = short (front ++ bytes) e

-- `want` bytes are still to come. `elim` keeps the recursion from running once the buffer is full.
unfoldable pub read_chunks : String → ℕ → List (List ℕ) → ReadResult
read_chunks e zero incoming = full [] incoming
read_chunks e (suc n) [] = short [] e
read_chunks e (suc n) (chunk ∷ rest) = elim (leb (length chunk) (suc n)) [
  | true ↦ prepend chunk (read_chunks e (suc n - length chunk) rest)
  | false ↦ full (take (suc n) chunk) (drop (suc n) chunk ∷ rest)
]

unfoldable pub read_full : ℕ → Conn → ReadResult
unfolding read_chunks
read_full want c = read_chunks c.read_error want c.incoming

-- The connection after a read that leaves these chunks.
abbrev pub left : List (List ℕ) → Conn → Conn
left rest c = record c { incoming = rest }

-- What is still to be read, without the chunks' bounds.
abbrev pub bytes_of : List (List ℕ) → List ℕ
bytes_of [] = []
bytes_of (chunk ∷ rest) = chunk ++ bytes_of rest

-- A read of exactly `wanted`, which leaves the bytes `after`.
abbrev pub Reads : ReadResult → List ℕ → List ℕ → Type 0
Reads (full bytes rest) wanted after = (bytes ≡ wanted) × (bytes_of rest ≡ after)
Reads (short bytes e) wanted after = ⊥

-- `binary.BigEndian.PutUint16` and `Uint16`.
abbrev pub put_uint16 : ℕ → List ℕ
put_uint16 v = v / 256 ∷ v % 256 ∷ []

abbrev pub uint16_at : List ℕ → ℕ → ℕ
uint16_at bytes i = get_or bytes i 0 * 256 + get_or bytes (i + 1) 0

prepend-Reads :
    (chunk : List ℕ) (r : ReadResult) (wanted after : List ℕ)
    → Reads r wanted after
    → Reads (prepend chunk r) (chunk ++ wanted) after
prepend-Reads chunk (full bytes rest) wanted after h = (ap (◌++◌ chunk) h.0, h.1)
prepend-Reads chunk (short bytes e) wanted after h = absurd h

-- Where two ways to cut a list meet.
split_longer :
    (chunk rest wanted after : List ℕ)
    → chunk ++ rest ≡ wanted ++ after
    → length wanted ≤ length chunk
    → (take (length wanted) chunk ≡ wanted) × (drop (length wanted) chunk ++ rest ≡ after)
split_longer chunk rest [] after h k = (refl, h)
split_longer [] rest (w ∷ ws) after h k = absurd (omega arith)
split_longer (c ∷ cs) rest (w ∷ ws) after h k =
    let (front, back) = split_longer cs rest ws after (cc) (omega arith) in (cc, back)

split_shorter :
    (chunk rest wanted after : List ℕ)
    → chunk ++ rest ≡ wanted ++ after
    → length chunk ≤ length wanted
    → (tail : List ℕ) × (wanted ≡ chunk ++ tail) × (rest ≡ tail ++ after)
split_shorter [] rest wanted after h k = (wanted, refl, h)
split_shorter (c ∷ cs) rest [] after h k = absurd (omega arith)
split_shorter (c ∷ cs) rest (w ∷ ws) after h k =
    let (tail, front, back) = split_shorter cs rest ws after (cc) (omega arith) in (tail, cc, back)

resume :
    (e : String) (chunk : List ℕ) (rest : List (List ℕ)) (tail wanted after : List ℕ)
    → wanted ≡ chunk ++ tail
    → Reads (read_chunks e (length tail) rest) tail after
    → Reads (prepend chunk (read_chunks e (length wanted - length chunk) rest)) wanted after
resume e chunk rest tail wanted after front r =
    subst (λ w. Reads (prepend chunk (read_chunks e (length wanted - length chunk) rest)) w after)
      (sym front)
      (subst (λ (n : ℕ). Reads (prepend chunk (read_chunks e n rest)) (chunk ++ tail) after)
        (omega (arith, ap length front, length-append chunk tail))
        (prepend-Reads chunk (read_chunks e (length tail) rest) tail after r))

read_chunks-Reads :
    (e : String) (chunks : List (List ℕ)) (wanted after : List ℕ)
    → bytes_of chunks ≡ wanted ++ after
    → Reads (read_chunks e (length wanted) chunks) wanted after
unfolding read_chunks
read_chunks-Reads e [] [] after h = (refl, h)
read_chunks-Reads e [] (w ∷ ws) after h = cc
read_chunks-Reads e (chunk ∷ rest) [] after h = (refl, h)
read_chunks-Reads e (chunk ∷ rest) (w ∷ ws) after h =
    elim (Bool-cases (leb (length chunk) (suc (length ws)))) [
      | inl fits ↦
          let (tail, front, back) =
            split_shorter chunk (bytes_of rest) (w ∷ ws) after h (ground arith) in
          rw (fits, read_chunks)
            (resume e chunk rest tail (w ∷ ws) after front
              (read_chunks-Reads e rest tail after back))
      | inr longer ↦
          rw (longer, read_chunks)
            (split_longer chunk (bytes_of rest) (w ∷ ws) after h (ground arith))
    ]

-- However the stream is cut into chunks, `ReadFull` returns exactly the bytes that come first, and
-- leaves the rest, as long as enough bytes arrive.
pub read_full-Reads :
    (c : Conn) (wanted after : List ℕ)
    → bytes_of c.incoming ≡ wanted ++ after
    → Reads (read_full (length wanted) c) wanted after
unfolding read_full
read_full-Reads c wanted after h = read_chunks-Reads c.read_error c.incoming wanted after h

pub Reads-full :
    (r : ReadResult) (wanted after : List ℕ)
    → Reads r wanted after
    → (rest : List (List ℕ)) × (r ≡ full wanted rest) × (bytes_of rest ≡ after)
Reads-full (full bytes rest) wanted after h = (rest, ap (λ b. full b rest) h.0, h.1)
Reads-full (short bytes e) wanted after h = absurd h

-- The form in which the exchanges use it.
pub read_full-full :
    (c : Conn) (wanted after : List ℕ)
    → bytes_of c.incoming ≡ wanted ++ after
    → (rest : List (List ℕ)) × (read_full (length wanted) c ≡ full wanted rest)
      × (bytes_of rest ≡ after)
read_full-full c wanted after h =
    Reads-full (read_full (length wanted) c) wanted after (read_full-Reads c wanted after h)

read_chunks-short :
    (e : String) (want : ℕ) (chunks : List (List ℕ))
    → length (bytes_of chunks) < want
    → read_chunks e want chunks ≡ short (bytes_of chunks) e
unfolding read_chunks
read_chunks-short e zero chunks h = elim h [ ]
read_chunks-short e (suc n) [] h = refl
read_chunks-short e (suc n) (chunk ∷ rest) h =
    rw (fits, read_chunks)
      (rw (
        read_chunks-short e (suc n - length chunk) rest
          (omega (arith, length-append chunk (bytes_of rest)))))
  where
    fits : leb (length chunk) (suc n) ≡ true
    fits = ground (arith, length-append chunk (bytes_of rest))

-- Where fewer bytes arrive than are asked for, the read fails with all of them taken.
pub read_full-short :
    (want : ℕ) (c : Conn)
    → length (bytes_of c.incoming) < want
    → read_full want c ≡ short (bytes_of c.incoming) c.read_error
unfolding read_full
read_full-short want c h = read_chunks-short c.read_error want c.incoming h
