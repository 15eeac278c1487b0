-- ===== src/Collector/Archive/Unpacked.antt =====
-- How the decompression of one file ends.
use mathlib.Core.Path.{subst}
use tvk_plugins.Base.{
  ℕ, zero, suc, String, Bool, true, false, ◌≡◌, refl, sym, ap, ◌∙◌, Option, none, some, List, [],
  ◌∷◌, ◌++◌, if◌then◌else◌, ltb, ◌≤◌, ◌+◌, length, arith, Bool-cases, inl, inr,
}
use tvk_plugins.Action.{
  Error, Result, ok, err, Action, lift, failure, ◌>>=◌, pure, raise, ok-injective, >>=-eq-ok,
}
use tvk_plugins.Action.Keeps.{Keeps, Keeps-pure, Keeps-lift, Keeps-bind}
use tvk_plugins.Text.{trim_suffix}
use tvk_plugins.Collector.Host.{
  Bytes, Objects, Host, GzipStream, Session, Change, file, bytes, removal, ask, change,
}
use tvk_plugins.Collector.Archive.{
  max_gzip_file_bytes, take, remove_quietly, copy_capped, give_up, settle, stream_error, unpack,
  unpack_valid, decompress_gz_file,
}

-- A change behind those that were made before.
infixl 20 ◌▹◌
abbrev pub ◌▹◌ {ℓ} : {A : Type ℓ} → List A → A → List A
cs ▹ c = cs ++ (c ∷ [])

-- The ways in which the decompression of `path` can end, by its answer and by the changes after it,
-- where `gave` holds of the streams that the reader has given.
pub data Outcome {O : Objects} (gave : GzipStream → Type 0) (path : String)
    (before : List (Change O)) : Result (Unit {0}) → List (Change O) → Type 0 where
  unreadable : {e : Error} → Outcome gave path before (err e) before
  no_gzip : Outcome gave path before (ok tt) before
  not_created :
      {e : Error} → Outcome gave path before (err e) (before ▹ file (trim_suffix path ".gz"))
  given_up :
      {e : Error} (b : Bytes)
      → length b ≤ max_gzip_file_bytes + 1
      → Outcome gave path before (err e) (
          before
          ▹ file (trim_suffix path ".gz")
          ▹ bytes (trim_suffix path ".gz") b
          ▹ removal (trim_suffix path ".gz")
          ▹ removal path)
  unpacked :
      (g : GzipStream)
      → gave g
      → g.broken ≡ none
      → length g.content ≤ max_gzip_file_bytes
      → Outcome gave path before (ok tt) (
          before
          ▹ file (trim_suffix path ".gz")
          ▹ bytes (trim_suffix path ".gz") g.content
          ▹ removal path)

length-take_le : (n : ℕ) (bs : Bytes) → length (take n bs) ≤ n
length-take_le zero bs = omega arith
length-take_le (suc n) [] = omega arith
length-take_le (suc n) (b ∷ bs) = let h = length-take_le n bs in omega arith

take_all : (n : ℕ) (bs : Bytes) → length bs ≤ n → take n bs ≡ bs
take_all zero [] h = refl
take_all zero (b ∷ bs) h = absurd (omega arith)
take_all (suc n) [] h = refl
take_all (suc n) (b ∷ bs) h = ap (λ r. b ∷ r) (take_all n bs (omega arith))

length-take_over : (n : ℕ) (bs : Bytes) → n ≤ length bs → length (take n bs) ≡ n
length-take_over zero bs h = refl
length-take_over (suc n) [] h = absurd (omega arith)
length-take_over (suc n) (b ∷ bs) h = ap suc (length-take_over n bs (omega arith))

fits :
    (limit : ℕ) (bs : Bytes) → ltb limit (length (take (limit + 1) bs)) ≡ false → length bs ≤ limit
fits limit bs h = elim (Bool-cases (ltb limit (length bs))) [
  | inl over ↦ let n = length-take_over (limit + 1) bs (ground arith) in absurd (ground arith)
  | inr under ↦ ground arith
]

-- The error of a stream that is no longer than the limit is seen.
sound :
    (limit : ℕ) (bs : Bytes) (broken : Option Error)
    → length bs ≤ limit
    → (if ltb limit (length bs) then ok tt else stream_error broken) ≡ ok tt
    → broken ≡ none
sound limit bs none small h = refl
sound limit bs (some e) small h = elim (Bool-cases (ltb limit (length bs))) [
  | inl over ↦ absurd (ground arith)
  | inr under ↦ cc (sym (ap (λ b. if b then ok tt else err e) under) ∙ h)
]

module _ {W A B : Type 0} (m : Action W A) (f : A → Action W B) {P : W → Type 0} where
  after-continue : (r : Result A) (v : W) → P v → ((a : A) → Keeps P (f a)) → P ((lift r >>= f) v).1
  unfolding ◌>>=◌
  after-continue (ok a) v h k = (k a).after v h
  after-continue (err e) v h k = h

  -- What the first action has made true and the rest keeps.
  after-bind : (v : W) → P (m v).1 → ((a : A) → Keeps P (f a)) → P ((m >>= f) v).1
  unfolding ◌>>=◌
  after-bind v h k = after-continue (m v).0 (m v).1 h k

module _ {O : Objects} (H : Host O) (path : String) (gave : GzipStream → Type 0)
    (before : List (Change O)) where
  abbrev out : String
  out = trim_suffix path ".gz"

  abbrev Ends : Action (Session H) (Unit {0}) → Session H → Type 0
  Ends m v = Outcome gave path before (m v).0 (m v).1.done

  given-up :
      (b : Bytes) (e : Error) (v : Session H)
      → v.done ≡ before ▹ file out ▹ bytes out b
      → length b ≤ max_gzip_file_bytes + 1
      → Ends (give_up H path out e) v
  unfolding give_up remove_quietly change tvk_plugins.Action.◌>>=◌ pure raise
      tvk_plugins.Action.attempt
  given-up b e v h small =
      subst (λ d. Outcome gave path before (err e) (d ▹ removal out ▹ removal path)) (sym h)
        (given_up b small)

  -- A stream that has been copied whole.
  abbrev Whole : Bytes → Type 0
  Whole b =
      (g : GzipStream) × gave g
      × (g.broken ≡ none)
      × (length g.content ≤ max_gzip_file_bytes)
      × (b ≡ g.content)

  kept :
      (b : Bytes) (v : Session H)
      → v.done ≡ before ▹ file out ▹ bytes out b
      → Whole b
      → Ends (remove_quietly H path) v
  unfolding remove_quietly change tvk_plugins.Action.◌>>=◌ pure tvk_plugins.Action.attempt
  kept b v h (g, given, sound, small, same) =
      subst (λ d. Outcome gave path before (ok tt) (d ▹ removal path))
        (sym (h ∙ ap (λ c. before ▹ file out ▹ bytes out c) same)) (unpacked g given sound small)

  settled_if :
      (over : Bool) (b : Bytes) (e : Error) (v : Session H)
      → v.done ≡ before ▹ file out ▹ bytes out b
      → length b ≤ max_gzip_file_bytes + 1
      → (over ≡ false → Whole b)
      → Ends (if over then give_up H path out e else remove_quietly H path) v
  settled_if true b e v h small whole = given-up b e v h small
  settled_if false b e v h small whole = kept b v h (whole refl)

  settled :
      (b : Bytes) (r : Result ℕ) (v : Session H)
      → v.done ≡ before ▹ file out ▹ bytes out b
      → length b ≤ max_gzip_file_bytes + 1
      → ((n : ℕ) → r ≡ ok n → ltb max_gzip_file_bytes n ≡ false → Whole b)
      → Ends (settle H path out r) v
  unfolding settle
  settled b (err e) v h small whole = given-up b e v h small
  settled b (ok n) v h small whole =
      settled_if (ltb max_gzip_file_bytes n) b _ v h small (whole n refl)

  copied-Whole :
      (g : GzipStream) (n : ℕ) (w : Session H)
      → gave g
      → (copy_capped H out g w).0 ≡ ok n
      → ltb max_gzip_file_bytes n ≡ false
      → Whole (take (max_gzip_file_bytes + 1) g.content)
  unfolding copy_capped lift pure
  copied-Whole g n w given e under =
      let (_, _, rest) = >>=-eq-ok _ _ w n e in
      let (_, unbroken, rest) = >>=-eq-ok _ _ _ n rest in
      let small =
        fits max_gzip_file_bytes g.content
          (ap (ltb max_gzip_file_bytes) (ok-injective _ n rest) ∙ under) in
      (
        g,
        given,
        sound max_gzip_file_bytes g.content g.broken small unbroken,
        small,
        take_all (max_gzip_file_bytes + 1) g.content (omega arith),
      )

  copy_capped-done :
      (g : GzipStream) (v : Session H)
      → (copy_capped H out g v).1.done
        ≡ v.done ▹ bytes out (take (max_gzip_file_bytes + 1) g.content)
  unfolding copy_capped change
  copy_capped-done g v =
      let b = take (max_gzip_file_bytes + 1) g.content in
      after-bind (change H (bytes out b) (H.write out b)) _ {P = λ u. u.done ≡ v.done ▹ bytes out b}
        v refl (λ _. Keeps-bind _ _ (Keeps-lift _) λ _. Keeps-pure _)

  Ends-bind :
      {A : Type 0} (m : Action (Session H) A) (f : A → Action (Session H) (Unit {0}))
      (v : Session H)
      → ((e : Error) → (m v).0 ≡ err e → Outcome gave path before (err e) (m v).1.done)
      → ((a : A) → (m v).0 ≡ ok a → Ends (f a) (m v).1)
      → Ends (m >>= f) v
  unfolding ◌>>=◌
  Ends-bind m f v failed passed = go (m v).0 (m v).1 failed passed
    where
      go :
          (r : Result _) (u : Session H)
          → ((e : Error) → r ≡ err e → Outcome gave path before (err e) u.done)
          → ((a : _) → r ≡ ok a → Ends (f a) u)
          → Ends (lift r >>= f) u
      go (ok a) u failed passed = passed a refl
      go (err e) u failed passed = failed e refl

  unpack-Outcome :
      (g : GzipStream) (w : Session H) → w.done ≡ before → gave g → Ends (unpack H path g) w
  unfolding unpack change tvk_plugins.Action.attempt
  unpack-Outcome g w h given =
      Ends-bind _ _ w
        (λ e _. subst (λ d. Outcome gave path before (err e) (d ▹ file out)) (sym h) not_created)
        λ _ _.
          Ends-bind _ _ _ (λ e c. cc c)
            λ r e.
              settled (take (max_gzip_file_bytes + 1) g.content) r _
                (copy_capped-done g _
                  ∙ ap (λ d. d ▹ file out ▹ bytes out (take (max_gzip_file_bytes + 1) g.content)) h)
                (length-take_le (max_gzip_file_bytes + 1) g.content)
                (λ n k under. copied-Whole g n _ given (ok-injective _ _ e ∙ k) under)

  unpack_valid-Outcome :
      (r : Result GzipStream) (w : Session H)
      → w.done ≡ before
      → ((g : GzipStream) → r ≡ ok g → gave g)
      → Ends (unpack_valid H path r) w
  unfolding pure
  unpack_valid-Outcome (ok g) w h given = unpack-Outcome g w h (given g refl)
  unpack_valid-Outcome (err e) w h given = subst (Outcome gave path before (ok tt)) (sym h) no_gzip

-- The decompression of a file ends in one of these ways: it could not be read, or is no gzip file,
-- and nothing is changed; the output could not be created; or the output was created, and then
-- either it holds all that the reader gave, at most 50 MiB and without an error, or it is removed. In
-- the last two cases the source is removed too.
pub decompress_gz_file-Outcome :
    {O : Objects} (H : Host O) (path : String) (w : Session H)
    → Outcome
        (λ g. (s : H.State) × ((H.read_gzip path s).0 ≡ ok g))
        path
        w.done
        (decompress_gz_file H path w).0
        (decompress_gz_file H path w).1.done
unfolding decompress_gz_file ask tvk_plugins.Action.attempt
decompress_gz_file-Outcome H path w =
    Ends-bind H path _ w.done _ _ w (λ e _. unreadable)
      λ _ _.
        Ends-bind H path _ w.done _ _ _ (λ e c. cc c)
          λ r e. unpack_valid-Outcome H path _ w.done r _ refl (λ g k. (_, ok-injective _ _ e ∙ k))
