-- ===== src/Cmd/CollectInputs/Overridden.antt =====
-- Which namespaces a run of the log collector takes.
use tvk_plugins.Base.{
  String, Bool, true, false, not, ◌||◌, ◌&&◌, if◌then◌else◌, ◌≡◌, refl, sym, ap, ◌∙◌, List, [], ◌∷◌,
}
use tvk_plugins.Cmd.Gvks.{Parsed, parsed, failed, panicked}
use tvk_plugins.Cmd.CollectInputs.{
  Flags, Inputs, Calls, given, ◌>>=◌, override_file_inputs_from_cli, is_contradictory,
}

parsed-injective {ℓ} : {A : Type ℓ} (a b : A) → parsed a ≡ parsed b → a ≡ b
parsed-injective a b h = cc

>>=-eq-parsed {ℓ κ} :
    {A : Type ℓ} {B : Type κ} (m : Parsed A) (f : A → Parsed B) (b : B)
    → (m >>= f) ≡ parsed b
    → (a : A) × (m ≡ parsed a) × (f a ≡ parsed b)
unfolding ◌>>=◌
>>=-eq-parsed (parsed a) f b h = (a, refl, h)
>>=-eq-parsed (failed e) f b h = cc h
>>=-eq-parsed panicked f b h = cc h

always_given :
    (changed : Bool) (cli file : List String)
    → (if changed || not (not (given cli || given file)) then cli else file) ≡ cli
always_given true cli file = refl
always_given false (n ∷ cli) file = refl
always_given false [] (n ∷ file) = refl
always_given false [] [] = refl

never_both : (cli file : List String) → (given cli && not (given cli || given file)) ≡ false
never_both [] file = refl
never_both (n ∷ cli) file = refl

-- Where the inputs are accepted: the namespaces are those of the flag, whatever the config file
-- names; the run is clustered exactly when neither names one; and so the test for namespaces in a
-- clustered run never ends the program.
pub override_file_inputs_from_cli-namespaces :
    (C : Calls) (f : Flags) (i r : Inputs)
    → override_file_inputs_from_cli C f i ≡ parsed r
    → (r.namespaces ≡ f.namespaces)
      × (r.clustered ≡ not (given f.namespaces || given i.namespaces))
      × (is_contradictory r ≡ false)
unfolding override_file_inputs_from_cli is_contradictory
override_file_inputs_from_cli-namespaces C f i r h =
    let (_, _, h) = >>=-eq-parsed _ _ r h in
    let (_, _, h) = >>=-eq-parsed _ _ r h in
    let (_, _, h) = >>=-eq-parsed _ _ r h in
    let (_, _, h) = >>=-eq-parsed _ _ r h in
    let same = parsed-injective _ r h in
    let names =
      sym (ap (λ (x : Inputs). x.namespaces) same)
      ∙ always_given (f.changed "namespaces") f.namespaces i.namespaces in
    let clustered = sym (ap (λ (x : Inputs). x.clustered) same) in
    (names, clustered, (λ j. given (names j) && clustered j) ∙ never_both f.namespaces i.namespaces)
