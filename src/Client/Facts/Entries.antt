-- ===== src/Client/Facts/Entries.antt =====
-- The facts that the server prints (writeMLEntry of server/session_info.go), as the client reads them
-- (mlst.go).
use ftp.Base.{
  ℕ, ◌^◌, ◌<◌, Bytes, Bool, Option, List, [], ◌∷◌, ◌++◌, ◌≡◌, ◌≢◌, refl, ap, ◌∙◌, arith, true,
  false, some, All, All-append, text, join, show_nat, show_nat-digits, space, split, split-join,
  split-Lacks, cut, cut-part, Lacks, IsWord, may_space, plain-Spaceless, is_digit, trim_space,
  trim_space-join, to_lower, bytes_eq, is_empty, length, if◌then◌else◌, pos, parse_int-show_nat,
  append_assoc,
}
use ftp.Session.State.{FileInfo}
use ftp.Session.Info.{ml_entry}
use ftp.Client.Facts.{
  MlEntry, add_fact, add_facts, build_entry, parse_ml_entry, size_fact, modify_fact,
}

abbrev pub AllDigits : Bytes → Type 0
AllDigits = All (λ c. is_digit c ≡ true)

digits-Lacks : (b : ℕ) (s : Bytes) → is_digit b ≡ false → AllDigits s → Lacks b s
digits-Lacks b [] e h = tt
digits-Lacks b (c ∷ s) e h = (ground arith, digits-Lacks b s e h.1)

digits-spaceless : (s : Bytes) → AllDigits s → All (λ c. may_space c ≡ false) s
digits-spaceless [] h = tt
digits-spaceless (c ∷ s) h = (ground arith, digits-spaceless s h.1)

pair-ne-nil : (k v : Bytes) → k ++ b'=' ∷ v ≢ []
pair-ne-nil [] v = cc
pair-ne-nil (c ∷ k) v = cc

pair_not_empty : (k v : Bytes) → is_empty (k ++ b'=' ∷ v) ≡ false
pair_not_empty [] v = refl
pair_not_empty (c ∷ k) v = refl

pair_spaceless :
    (k v : Bytes)
    → All (λ c. may_space c ≡ false) k
    → All (λ c. may_space c ≡ false) v
    → All (λ c. may_space c ≡ false) (k ++ b'=' ∷ v)
pair_spaceless k v hk hv = All-append _ k (b'=' ∷ v) hk (refl, hv)

pair-IsWord :
    (k v : Bytes)
    → All (λ c. may_space c ≡ false) k
    → All (λ c. may_space c ≡ false) v
    → IsWord (k ++ b'=' ∷ v)
pair-IsWord k v hk hv =
    (pair-ne-nil k v, plain-Spaceless (k ++ b'=' ∷ v) (pair_spaceless k v hk hv))

-- A pair of a key and a value is added, its key in lower case.
add_fact-pair :
    (k v : Bytes) (m : List (Bytes × Bytes))
    → Lacks b'=' k
    → All (λ c. may_space c ≡ false) k
    → All (λ c. may_space c ≡ false) v
    → add_fact (k ++ b'=' ∷ v) m ≡ (to_lower k, v) ∷ m
unfolding add_fact join
add_fact-pair k v m h hk hv =
    let t = trim_space-join (k ++ b'=' ∷ v) [] (pair-IsWord k v hk hv) tt in
    rw (add_fact, t, pair_not_empty k v, cut-part b'=' k v h) refl

-- The kind of an entry, as it is printed.
abbrev pub kind_text : Bool → Bytes
kind_text is_dir = if is_dir then text "dir" else text "file"

kind_spaceless : (is_dir : Bool) → All (λ c. may_space c ≡ false) (kind_text is_dir)
unfolding text
kind_spaceless true = (refl, (refl, (refl, tt)))
kind_spaceless false = (refl, (refl, (refl, (refl, tt))))

kind-Lacks : (is_dir : Bool) → Lacks b';' (kind_text is_dir)
unfolding text
kind-Lacks true = (refl, (refl, (refl, tt)))
kind-Lacks false = (refl, (refl, (refl, (refl, tt))))

pair-Lacks : (k v : Bytes) → Lacks b';' k → Lacks b';' v → Lacks b';' (k ++ b'=' ∷ v)
pair-Lacks k v hk hv = All-append _ k (b'=' ∷ v) hk (refl, hv)

add_facts-cons :
    (p : Bytes) (ps : List Bytes) (m : List (Bytes × Bytes))
    → add_facts (p ∷ ps) m ≡ add_facts ps (add_fact p m)
unfolding add_facts
add_facts-cons p ps m = refl

add_facts-empty : (m : List (Bytes × Bytes)) → add_facts ([] ∷ []) m ≡ m
unfolding add_facts trim_space
add_facts-empty m = refl

Spaceless-Lacks : (s : Bytes) → All (λ c. may_space c ≡ false) s → Lacks space s
Spaceless-Lacks [] h = tt
Spaceless-Lacks (c ∷ s) h = (ground arith, Spaceless-Lacks s h.1)

field_spaceless :
    (p rest : Bytes)
    → All (λ c. may_space c ≡ false) p
    → All (λ c. may_space c ≡ false) rest
    → All (λ c. may_space c ≡ false) (p ++ b';' ∷ rest)
field_spaceless p rest h k = All-append _ p (b';' ∷ rest) h (refl, k)

to_lower-kind : (is_dir : Bool) → to_lower (kind_text is_dir) ≡ kind_text is_dir
unfolding to_lower text
to_lower-kind true = refl
to_lower-kind false = refl

size_fact-show_nat : (n : ℕ) → n < 2 ^ 63 → size_fact (some (show_nat n)) ≡ pos n
unfolding size_fact
size_fact-show_nat n h = rw (size_fact, parse_int-show_nat n h) refl

modify_fact-digits :
    {Time : Type 0} (parse_time : Bytes → Option Time) (s : Bytes)
    → AllDigits s
    → length s ≡ 14
    → modify_fact parse_time (some s) ≡ parse_time s
unfolding modify_fact
modify_fact-digits parse_time s h l =
    rw (modify_fact, split-Lacks b'.' s (digits-Lacks b'.' s refl h)) (ground arith)

module _ (f : FileInfo) (stamp : AllDigits f.mod_time) where
  abbrev pub type_part : Bytes
  type_part = text "type" ++ b'=' ∷ kind_text f.is_dir

  abbrev pub size_part : Bytes
  size_part = text "size" ++ b'=' ∷ show_nat f.size

  abbrev pub modify_part : Bytes
  modify_part = text "modify" ++ b'=' ∷ f.mod_time

  abbrev pub facts_text : Bytes
  facts_text = join (b';' ∷ []) (type_part ∷ size_part ∷ modify_part ∷ [] ∷ [])

  pub ml_entry-facts : ml_entry f ≡ facts_text ++ space ∷ f.name
  unfolding ml_entry text join
  ml_entry-facts = simp append_assoc

  -- The facts that the client collects, the last one first.
  abbrev pub facts_of : List (Bytes × Bytes)
  facts_of =
      (text "modify", f.mod_time)
      ∷ (text "size", show_nat f.size)
      ∷ (text "type", kind_text f.is_dir)
      ∷ []

  split-facts : split b';' facts_text ≡ type_part ∷ size_part ∷ modify_part ∷ [] ∷ []
  unfolding text
  split-facts =
      split-join b';' type_part (size_part ∷ modify_part ∷ [] ∷ [])
        (pair-Lacks (text "type") _ (refl, (refl, (refl, (refl, tt)))) (kind-Lacks f.is_dir))
        (
          pair-Lacks (text "size") _ (refl, (refl, (refl, (refl, tt))))
              (digits-Lacks b';' _ refl (show_nat-digits f.size)),
          (
            pair-Lacks (text "modify") _ (refl, (refl, (refl, (refl, (refl, (refl, tt))))))
                (digits-Lacks b';' _ refl stamp),
            (tt, tt),
          ),
        )

  add_facts-parts : add_facts (type_part ∷ size_part ∷ modify_part ∷ [] ∷ []) [] ≡ facts_of
  unfolding text to_lower
  add_facts-parts =
      add_facts-cons type_part _ []
      ∙ ap (add_facts (size_part ∷ modify_part ∷ [] ∷ [])) (
          add_fact-pair (text "type") (kind_text f.is_dir) [] (refl, (refl, (refl, (refl, tt))))
            (refl, (refl, (refl, (refl, tt)))) (kind_spaceless f.is_dir))
      ∙ add_facts-cons size_part _ _
      ∙ ap (add_facts (modify_part ∷ [] ∷ [])) (
          add_fact-pair (text "size") (show_nat f.size) _ (refl, (refl, (refl, (refl, tt))))
            (refl, (refl, (refl, (refl, tt)))) (digits-spaceless _ (show_nat-digits f.size)))
      ∙ add_facts-cons modify_part _ _
      ∙ ap (add_facts ([] ∷ [])) (
          add_fact-pair (text "modify") f.mod_time _
            (refl, (refl, (refl, (refl, (refl, (refl, tt))))))
            (refl, (refl, (refl, (refl, (refl, (refl, tt)))))) (digits-spaceless _ stamp))
      ∙ add_facts-empty facts_of

  pub facts_spaceless : All (λ c. may_space c ≡ false) facts_text
  unfolding join text
  facts_spaceless =
      field_spaceless type_part _
        (pair_spaceless (text "type") _ (refl, (refl, (refl, (refl, tt))))
          (kind_spaceless f.is_dir))
        (field_spaceless size_part _
          (pair_spaceless (text "size") _ (refl, (refl, (refl, (refl, tt))))
            (digits-spaceless _ (show_nat-digits f.size)))
          (field_spaceless modify_part []
            (pair_spaceless (text "modify") _ (refl, (refl, (refl, (refl, (refl, (refl, tt))))))
              (digits-spaceless _ stamp))
            tt))

  facts-Lacks : Lacks space facts_text
  facts-Lacks = Spaceless-Lacks facts_text facts_spaceless

  cut_entry : cut space (ml_entry f) ≡ some (facts_text, f.name)
  cut_entry = ap (cut space) ml_entry-facts ∙ cut-part space facts_text f.name facts-Lacks

  module _ {Time : Type 0} (parse_time : Bytes → Option Time) where
    -- The entry that the client makes of the facts of a file.
    unfoldable pub seen : MlEntry Time
    seen = record {
      name = f.name;
      kind = kind_text f.is_dir;
      size = pos f.size;
      mod_time = parse_time f.mod_time;
      perm = [];
      unix_mode = [];
      facts = facts_of;
    }

    build_seen :
        length f.mod_time ≡ 14 → f.size < 2 ^ 63 → build_entry parse_time f.name facts_of ≡ seen
    unfolding build_entry seen text bytes_eq
    build_seen l fits = λ i. record {
      name = f.name;
      kind = to_lower-kind f.is_dir i;
      size = size_fact-show_nat f.size fits i;
      mod_time = modify_fact-digits parse_time f.mod_time stamp l i;
      perm = [];
      unix_mode = [];
      facts = facts_of;
    }

    -- A file or a directory, with a time of 14 digits and a size below 2 ^ 63, and any name: the entry
    -- that MLST and MLSD print for it is read as its name, its type, its size and its time.
    pub parse_ml_entry-ml_entry :
        length f.mod_time ≡ 14
        → f.size < 2 ^ 63
        → parse_ml_entry parse_time (ml_entry f) ≡ some seen
    unfolding parse_ml_entry
    parse_ml_entry-ml_entry l fits =
        rw (parse_ml_entry, cut_entry, split-facts, add_facts-parts) (ap some (build_seen l fits))
