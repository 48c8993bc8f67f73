-- ===== src/Tasks/Samples.antt =====
-- A format for artifacts that is read as it is printed, for tests: every text and list has its length first.
use index.Base.{
  ℕ, zero, suc, ◌≡◌, refl, Option, none, some, List, [], ◌∷◌, length, Result, ok, err, type_error,
}
use index.Base.Text.{Text}
use index.ArtifactUtils.{AbiElement}
use index.Tasks.Types.{Artifact}

abbrev next : {A B : Type 0} → Option (A × Text) → (A → Text → Option B) → Option B
next none f = none
next (some (a, rest)) f = f a rest

-- A printer adds to the front of what follows.
abbrev Reads : {A : Type 0} → (A → Text → Text) → (Text → Option (A × Text)) → Type 0
Reads {A} print read = (a : A) (rest : Text) → read (print a rest) ≡ some (a, rest)

module _ {A : Type 0} (print : A → Text → Text) (read : Text → Option (A × Text)) where
  abbrev print_all : List A → Text → Text
  print_all [] rest = rest
  print_all (x ∷ xs) rest = print x (print_all xs rest)

  abbrev print_list : List A → Text → Text
  print_list xs rest = length xs ∷ print_all xs rest

  abbrev read_all : ℕ → Text → Option (List A × Text)
  read_all zero s = some ([], s)
  read_all (suc n) s =
      next (read s) (λ x rest. next (read_all n rest) (λ xs last. some (x ∷ xs, last)))

  abbrev read_list : Text → Option (List A × Text)
  read_list [] = none
  read_list (n ∷ s) = read_all n s

  print-read_list : Reads print read → Reads print_list read_list
  print-read_list reads [] rest = refl
  print-read_list reads (x ∷ xs) rest =
      rw (reads x (print_all xs rest), print-read_list reads xs rest) refl

abbrev print_code : ℕ → Text → Text
print_code c rest = c ∷ rest

abbrev read_code : Text → Option (ℕ × Text)
read_code [] = none
read_code (c ∷ rest) = some (c, rest)

abbrev print_text : Text → Text → Text
print_text = print_list print_code read_code

abbrev read_text : Text → Option (Text × Text)
read_text = read_list print_code read_code

print-read_text : Reads print_text read_text
print-read_text = print-read_list print_code read_code (λ c rest. refl)

abbrev print_gas : Option Text → Text → Text
print_gas none rest = 0 ∷ rest
print_gas (some gas) rest = 1 ∷ print_text gas rest

abbrev read_gas : Text → Option (Option Text × Text)
read_gas [] = none
read_gas (zero ∷ rest) = some (none, rest)
read_gas (suc n ∷ rest) = next (read_text rest) (λ gas last. some (some gas, last))

print-read_gas : Reads print_gas read_gas
print-read_gas none rest = refl
print-read_gas (some gas) rest = rw (print-read_text gas rest) refl

abbrev print_field : Text × Text → Text → Text
print_field (name, value) rest = print_text name (print_text value rest)

abbrev read_field : Text → Option ((Text × Text) × Text)
read_field s =
    next (read_text s)
      (λ name rest. next (read_text rest) (λ value last. some ((name, value), last)))

print-read_field : Reads print_field read_field
print-read_field (name, value) rest =
    rw (print-read_text name (print_text value rest), print-read_text value rest) refl

abbrev print_fields : List (Text × Text) → Text → Text
print_fields = print_list print_field read_field

abbrev read_fields : Text → Option (List (Text × Text) × Text)
read_fields = read_list print_field read_field

abbrev print_element : AbiElement Text → Text → Text
print_element element rest =
    print_text element.kind (print_gas element.gas (print_fields element.fields rest))

abbrev read_element : Text → Option (AbiElement Text × Text)
read_element s = next (read_text s) (λ kind rest. next (read_gas rest) (λ gas more.
    next (read_fields more)
      (λ fields last. some (record { kind = kind; gas = gas; fields = fields }, last))))

print-read_element : Reads print_element read_element
print-read_element element rest =
    rw
      (
        print-read_text element.kind (print_gas element.gas (print_fields element.fields rest)),
        print-read_gas element.gas (print_fields element.fields rest),
        print-read_list print_field read_field print-read_field element.fields rest,
      )
      refl

abbrev print_abi : List (AbiElement Text) → Text → Text
print_abi = print_list print_element read_element

abbrev pub print_artifact : Artifact Text Text → Text
print_artifact artifact = print_abi artifact.abi (print_text artifact.rest [])

abbrev done : Option (Artifact Text Text) → Result (Artifact Text Text)
done none = err type_error
done (some artifact) = ok artifact

abbrev pub read_artifact : Text → Result (Artifact Text Text)
read_artifact s = done (
    next (read_list print_element read_element s)
      (λ abi rest. next (read_text rest) (λ other last. some (record { abi = abi; rest = other }))))

pub print-read_artifact :
    (artifact : Artifact Text Text) → read_artifact (print_artifact artifact) ≡ ok artifact
print-read_artifact artifact =
    rw
      (
        print-read_list print_element read_element print-read_element artifact.abi
            (print_text artifact.rest []),
        print-read_text artifact.rest [],
      )
      refl
