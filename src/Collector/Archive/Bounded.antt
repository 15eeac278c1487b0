-- ===== src/Collector/Archive/Bounded.antt =====
-- How much the extraction of an archive writes, and which archives it accepts.
use mathlib.Core.Path.{subst}
use tvk_plugins.Base.{
  ℕ, zero, suc, String, ◌≡◌, refl, sym, ap, ◌∙◌, Option, none, some, [], ◌∷◌, if◌then◌else◌, ltb,
  ◌≤◌, ◌^◌, ◌-◌, All, length, arith, Bool-cases, inl, inr,
}
use tvk_plugins.Action.{
  Error, Result, ok, err, Action, lift, failure, ◌>>=◌, >>=-eq-ok, ok-injective,
}
use tvk_plugins.Action.Keeps.{
  Keeps, Keeps-pure, Keeps-raise, Keeps-lift, Keeps-bind, Keeps-bind-known,
}
use tvk_plugins.Collector.Host.{
  ℤ, pos, negsuc, Bytes, Objects, Host, Header, Typeflag, TarStream, end_of_archive, broken_archive,
  entry, type_dir, type_reg, type_other, Session, Change, directory, file, bytes, yaml, event,
  archived, removal, removal_all, Done,
}
use tvk_plugins.Collector.Host.Changes.{ask-Done, change-Done}
use tvk_plugins.Collector.Archive.{
  max_tar_file_bytes, checked_size, take, stopped_early, copy_error, tar_header_file_mode, renamed,
  extract_regular, extract_as, extract_entry, extract_entries, extract_tar_file,
}

pub length-take : (n : ℕ) (bs : Bytes) → length (take n bs) ≤ n
length-take zero bs = omega arith
length-take (suc n) [] = omega arith
length-take (suc n) (b ∷ bs) = let h = length-take n bs in omega arith

-- Both tests of a number against its limit.
capped :
    (limit m n : ℕ) (e : Error)
    → (if ltb limit m then err e else ok m) ≡ ok n
    → (m ≡ n) × (n ≤ limit)
capped limit m n e h = elim (Bool-cases (ltb limit m)) [
  | inl over ↦ cc (sym (ap (λ b. if b then err e else ok m) over) ∙ h)
  | inr under ↦
      let same = ok-injective m n (sym (ap (λ b. if b then err e else ok m) under) ∙ h) in
      (same, subst (λ k. k ≤ limit) same (ground arith))
]

checked_size-eq-ok :
    (name : String) (size : ℤ) (n : ℕ)
    → checked_size name size ≡ ok n
    → (size ≡ pos n) × (n ≤ max_tar_file_bytes)
unfolding checked_size
checked_size-eq-ok name (negsuc m) n h = cc h
checked_size-eq-ok name (pos m) n h =
    let (same, small) = capped max_tar_file_bytes m n _ h in (ap pos same, small)

mode-eq-ok :
    (name : String) (mode : ℤ) (n : ℕ)
    → renamed name (tar_header_file_mode mode) ≡ ok n
    → (mode ≡ pos n) × (n ≤ 2 ^ 32 - 1)
unfolding tar_header_file_mode
mode-eq-ok name (negsuc m) n h = cc h
mode-eq-ok name (pos m) n h = mode_cases m n (tar_header_file_mode (pos m)) refl h
  where
    mode_cases :
        (m n : ℕ) (r : Result ℕ)
        → tar_header_file_mode (pos m) ≡ r
        → renamed name r ≡ ok n
        → (pos m ≡ pos n) × (n ≤ 2 ^ 32 - 1)
    mode_cases m n (ok k) e h =
        let (same, small) = capped (2 ^ 32 - 1) m n _ (e ∙ ap ok (ok-injective k n h)) in
        (ap pos same, small)
    mode_cases m n (err e) d h = cc h

module _ {O : Objects} where
  -- No write is longer than the cap, and no mode is wider than 32 bits.
  abbrev pub IsBounded : Change O → Type 0
  IsBounded (directory p mode) = mode ≤ 2 ^ 32 - 1
  IsBounded (bytes p b) = length b ≤ max_tar_file_bytes
  IsBounded (file p) = Unit
  IsBounded (yaml p m) = Unit
  IsBounded (event p m) = Unit
  IsBounded (archived p q) = Unit
  IsBounded (removal p) = Unit
  IsBounded (removal_all p) = Unit

  module _ (H : Host O) where
    extract_regular-IsBounded :
        (h : Header) (t : String) (mode : ℕ) → Keeps (Done IsBounded) (extract_regular H h t mode)
    unfolding extract_regular lift
    extract_regular-IsBounded h t mode = Keeps-bind-known _ _ (Keeps-lift _) λ n w e.
        Keeps-bind _ _ (change-Done IsBounded _ _ (omega arith)) λ _.
          Keeps-bind _ _ (change-Done IsBounded _ _ tt)
            λ _. Keeps-bind _ _ (change-Done IsBounded _ _ (small n e)) λ _. Keeps-lift _
      where
        small :
            (n : ℕ)
            → checked_size h.name h.size ≡ ok n
            → length (take n h.body) ≤ max_tar_file_bytes
        small n e =
            let a = length-take n h.body in
            let b = (checked_size-eq-ok h.name h.size n e).1 in omega arith

    extract_as-IsBounded :
        (flag : Typeflag) (h : Header) (t : String) (mode : ℕ)
        → mode ≤ 2 ^ 32 - 1
        → Keeps (Done IsBounded) (extract_as H flag h t mode)
    unfolding extract_as
    extract_as-IsBounded type_dir h t mode m = change-Done IsBounded _ _ m
    extract_as-IsBounded type_reg h t mode m = extract_regular-IsBounded h t mode
    extract_as-IsBounded type_other h t mode m = Keeps-pure tt

    extract_entry-IsBounded :
        (dest : String) (h : Header) → Keeps (Done IsBounded) (extract_entry H dest h)
    unfolding extract_entry lift
    extract_entry-IsBounded dest h = Keeps-bind _ _ (Keeps-lift _) λ t.
        Keeps-bind-known _ _ (Keeps-lift _)
          λ mode w e. extract_as-IsBounded h.typeflag h t mode (mode-eq-ok h.name h.mode mode e).1

    extract_entries-IsBounded :
        (dest : String) (stream : TarStream)
        → Keeps (Done IsBounded) (extract_entries H dest stream)
    unfolding extract_entries
    extract_entries-IsBounded dest end_of_archive = Keeps-pure tt
    extract_entries-IsBounded dest (broken_archive e) = Keeps-raise e
    extract_entries-IsBounded dest (entry h rest) =
        Keeps-bind _ _ (extract_entry-IsBounded dest h) λ _. extract_entries-IsBounded dest rest

    pub extract_tar_file-bounded :
        (tar_path dest : String) → Keeps (Done IsBounded) (extract_tar_file H tar_path dest)
    unfolding extract_tar_file
    extract_tar_file-bounded tar_path dest =
        Keeps-bind _ _ (ask-Done IsBounded _)
          λ _. Keeps-bind _ _ (ask-Done IsBounded _) λ stream. extract_entries-IsBounded dest stream

-- Whatever the headers of an archive say: from a session without changes, no write of its extraction
-- is longer than the cap of 100 MiB, and no directory is made with a mode of more than 32 bits.
pub extract_tar_file-IsBounded :
    {O : Objects} (H : Host O) (tar_path dest : String) (w : Session H)
    → w.done ≡ []
    → All IsBounded (extract_tar_file H tar_path dest w).1.done
extract_tar_file-IsBounded H tar_path dest w h =
    (extract_tar_file-bounded H tar_path dest).after w (subst (All IsBounded) (sym h) tt)

-- A header that the extraction lets pass: its mode fits, and a regular file has a size below the cap
-- and all of its bytes.
abbrev pub IsAccepted : Header → Type 0
IsAccepted h =
    ((m : ℕ) × (h.mode ≡ pos m) × (m ≤ 2 ^ 32 - 1))
    × (h.typeflag ≡ type_reg
        → (n : ℕ) × (h.size ≡ pos n) × (n ≤ max_tar_file_bytes) × (n ≤ length h.body))

abbrev pub AllAccepted : TarStream → Type 0
AllAccepted end_of_archive = Unit
AllAccepted (broken_archive e) = ⊥
AllAccepted (entry h rest) = IsAccepted h × AllAccepted rest

stopped_early-not-ok : (stopped : Option Error) → stopped_early stopped ≡ ok tt → ⊥
stopped_early-not-ok none h = cc h
stopped_early-not-ok (some e) h = cc h

copy_error-eq-ok :
    (n : ℕ) (body : Bytes) (stopped : Option Error)
    → copy_error n body stopped ≡ ok tt
    → n ≤ length body
copy_error-eq-ok n body stopped h = elim (Bool-cases (ltb (length body) n)) [
  | inl short ↦ absurd (
      stopped_early-not-ok stopped
        (sym (ap (λ b. if b then stopped_early stopped else ok tt) short) ∙ h))
  | inr whole ↦ ground arith
]

module _ {O : Objects} (H : Host O) where
  extract_regular-accepted :
      (h : Header) (t : String) (mode : ℕ) (w : Session H)
      → (extract_regular H h t mode w).0 ≡ ok tt
      → (n : ℕ) × (h.size ≡ pos n) × (n ≤ max_tar_file_bytes) × (n ≤ length h.body)
  unfolding extract_regular lift
  extract_regular-accepted h t mode w e =
      let (n, s, rest) = >>=-eq-ok _ _ w tt e in
      let (_, _, rest) = >>=-eq-ok _ _ _ tt rest in
      let (_, _, rest) = >>=-eq-ok _ _ _ tt rest in
      let (_, _, copied) = >>=-eq-ok _ _ _ tt rest in
      let (size, small) = checked_size-eq-ok h.name h.size n s in
      (n, size, small, copy_error-eq-ok n h.body h.body_error copied)

  extract_as-accepted :
      (flag : Typeflag) (h : Header) (t : String) (mode : ℕ) (w : Session H)
      → (extract_as H flag h t mode w).0 ≡ ok tt
      → flag ≡ type_reg
      → (n : ℕ) × (h.size ≡ pos n) × (n ≤ max_tar_file_bytes) × (n ≤ length h.body)
  unfolding extract_as
  extract_as-accepted type_reg h t mode w e _ = extract_regular-accepted h t mode w e
  extract_as-accepted type_dir h t mode w e c = cc c
  extract_as-accepted type_other h t mode w e c = cc c

  extract_entries-accepted :
      (dest : String) (stream : TarStream) (w : Session H)
      → (extract_entries H dest stream w).0 ≡ ok tt
      → AllAccepted stream
  unfolding extract_entries extract_entry lift tvk_plugins.Action.raise
  extract_entries-accepted dest end_of_archive w e = tt
  extract_entries-accepted dest (broken_archive f) w e = cc e
  extract_entries-accepted dest (entry h rest) w e =
      let (_, one, more) = >>=-eq-ok (extract_entry H dest h) _ w tt e in
      let (t, _, one) = >>=-eq-ok _ _ w tt one in
      let (m, s, one) = >>=-eq-ok _ _ _ tt one in
      let (mode, fits) = mode-eq-ok h.name h.mode m s in
      (
        ((m, mode, fits), extract_as-accepted h.typeflag h t m _ one),
        extract_entries-accepted dest rest _ more,
      )

-- An extraction succeeds only if the archive could be read to its end, every mode is a number of 32
-- bits, and every regular file has a size from 0 to the cap and as many bytes as its size.
pub extract_tar_file-AllAccepted :
    {O : Objects} (H : Host O) (tar_path dest : String) (w : Session H)
    → (extract_tar_file H tar_path dest w).0 ≡ ok tt
    → AllAccepted (H.read_tar tar_path (H.open_read tar_path w.host).1).0
unfolding extract_tar_file tvk_plugins.Collector.Host.ask
extract_tar_file-AllAccepted H tar_path dest w e =
    let (_, _, rest) = >>=-eq-ok _ _ w tt e in
    let (stream, s, rest) = >>=-eq-ok _ _ _ tt rest in
    subst AllAccepted (sym (ok-injective _ stream s))
      (extract_entries-accepted H dest stream _ rest)
