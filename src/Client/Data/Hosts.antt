-- ===== src/Client/Data/Hosts.antt =====
-- Addresses and ports as texts, put together and taken apart (data.go).
use ftp.Base.{
  ℕ, suc, ◌≤◌, ◌<◌, [], ◌∷◌, ◌++◌, ◌≡◌, refl, arith, some, none, Bytes, text, join, show_nat,
  append_assoc, Lacks, All, is_digit, cut, cut-part, Bool, true, false, ◌&&◌, parse_uint, ◌≢◌,
  All-reverse, All-append, contains_byte, ◌||◌, reverse, ◌==◌, show_nat-digits,
}
use mathlib.Core.List.{reverse-append, reverse-cons, reverse-reverse}
use ftp.Client.Data.{cut_last, unbracketed, octet, dotted, split_host_port, join_host_port}

reads_back : ℕ → Bool
reads_back n = elim (octet (show_nat n)) [ none ↦ false | some m ↦ m == n ]

-- So do the numbers before one.
read_back : ℕ → Bool
unfolding reads_back
read_back ℕ.zero = true
read_back (suc n) = reads_back n && read_back n

read_table : read_back 256 ≡ true
unfolding read_back reads_back octet show_nat parse_uint
read_table = refl

below_table : (m n : ℕ) → n < m → read_back m ≡ true → reads_back n ≡ true
unfolding read_back
below_table ℕ.zero n lt h = absurd (omega arith)
below_table (suc m) n lt h = ground (arith, below_table m n)

octet_of : (n : ℕ) → reads_back n ≡ true → octet (show_nat n) ≡ some n
unfolding reads_back
octet_of n h = ground arith

pub octet-show_nat : (n : ℕ) → n ≤ 255 → octet (show_nat n) ≡ some n
octet-show_nat n h = octet_of n (below_table 256 n (omega arith) read_table)

-- Digits are no other bytes.
pub digits-Lacks :
    (b : ℕ) (s : Bytes) → is_digit b ≡ false → All (λ c. is_digit c ≡ true) s → Lacks b s
digits-Lacks b [] e h = tt
digits-Lacks b (c ∷ s) e h = (ground arith, digits-Lacks b s e h.1)

pub show_nat-Lacks : (b n : ℕ) → is_digit b ≡ false → Lacks b (show_nat n)
show_nat-Lacks b n e = digits-Lacks b (show_nat n) e (show_nat-digits n)

-- The bytes of addresses in four numbers.
abbrev pub is_plain : ℕ → Bool
is_plain c = is_digit c || c == b'.'

abbrev pub AllPlain : Bytes → Type 0
AllPlain = All (λ c. is_plain c ≡ true)

AllPlain-digits : (s : Bytes) → All (λ c. is_digit c ≡ true) s → AllPlain s
AllPlain-digits [] h = tt
AllPlain-digits (c ∷ s) h = (ground arith, AllPlain-digits s h.1)

pub AllPlain-show_nat : (n : ℕ) → AllPlain (show_nat n)
AllPlain-show_nat n = AllPlain-digits (show_nat n) (show_nat-digits n)

AllPlain-Lacks : (b : ℕ) (s : Bytes) → is_plain b ≡ false → AllPlain s → Lacks b s
AllPlain-Lacks b [] e h = tt
AllPlain-Lacks b (c ∷ s) e h = (ground arith, AllPlain-Lacks b s e h.1)

AllPlain-dot : (g s : Bytes) → AllPlain g → AllPlain s → AllPlain (g ++ b'.' ∷ s)
AllPlain-dot g s h k = All-append _ g (b'.' ∷ s) h (refl, k)

pub AllPlain-dotted : (a b c d : ℕ) → AllPlain (dotted a b c d)
unfolding join text
AllPlain-dotted a b c d = AllPlain-dot (show_nat a) _ (AllPlain-show_nat a) (
    AllPlain-dot (show_nat b) _ (AllPlain-show_nat b)
      (AllPlain-dot (show_nat c) _ (AllPlain-show_nat c) (AllPlain-show_nat d)))

Lacks-contains_byte : (b : ℕ) (s : Bytes) → Lacks b s → contains_byte b s ≡ false
unfolding contains_byte
Lacks-contains_byte b [] h = refl
Lacks-contains_byte b (c ∷ s) h = ground (arith, Lacks-contains_byte b s)

plain_lacks : (b : ℕ) (s : Bytes) → is_plain b ≡ false → AllPlain s → contains_byte b s ≡ false
plain_lacks b s e h = Lacks-contains_byte b s (AllPlain-Lacks b s e h)

cut-reverse :
    (b : ℕ) (g s : Bytes) → Lacks b s → cut b (reverse (g ++ b ∷ s)) ≡ some (reverse s, reverse g)
cut-reverse b g s h =
    rw
      (
        reverse-append g (b ∷ s),
        reverse-cons b s,
        append_assoc (reverse s) (b ∷ []) (reverse g),
        cut-part b (reverse s) (reverse g) (All-reverse _ s h),
      )
      refl

cut_last-part : (b : ℕ) (g s : Bytes) → Lacks b s → cut_last b (g ++ b ∷ s) ≡ some (g, s)
cut_last-part b g s h =
    rw (cut_last, cut-reverse b g s h, reverse-reverse g, reverse-reverse s) refl

-- The brackets of addresses in IPv6 form do not occur.
plain_around :
    (b : ℕ) (host port : Bytes)
    → is_plain b ≡ false
    → b':' == b ≡ false
    → AllPlain host
    → AllPlain port
    → contains_byte b (host ++ b':' ∷ port) ≡ false
plain_around b host port e f h k =
    Lacks-contains_byte b (host ++ b':' ∷ port)
      (All-append _ host (b':' ∷ port) (AllPlain-Lacks b host e h) (f, AllPlain-Lacks b port e k))

unbracketed-part :
    (host port : Bytes)
    → AllPlain host
    → AllPlain port
    → unbracketed (host ++ b':' ∷ port) ≡ some (host, port)
unbracketed-part host port h k =
    rw
      (
        unbracketed,
        cut_last-part b':' host port (AllPlain-Lacks b':' port refl k),
        plain_lacks b':' host refl h,
        plain_around b'[' host port refl refl h k,
        plain_around b']' host port refl refl h k,
      )
      refl

split_at_colon :
    (host port : Bytes)
    → host ≢ []
    → AllPlain host
    → AllPlain port
    → split_host_port (host ++ b':' ∷ port) ≡ some (host, port)
unfolding split_host_port
split_at_colon [] port ne h k = absurd (ne refl)
split_at_colon (c ∷ host) port ne h k =
    let other : c == b'[' ≡ false = (AllPlain-Lacks b'[' (c ∷ host) refl h).0 in
    rw (split_host_port, other) (unbracketed-part (c ∷ host) port h k)

-- net.SplitHostPort takes apart what net.JoinHostPort put together.
pub split_host_port-join :
    (host port : Bytes)
    → host ≢ []
    → AllPlain host
    → AllPlain port
    → split_host_port (join_host_port host port) ≡ some (host, port)
unfolding join_host_port
split_host_port-join host port ne h k =
    rw (plain_lacks b':' host refl h) (split_at_colon host port ne h k)
