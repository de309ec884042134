-- ===== src/Application/Arguments/Options.antt =====
-- The command line of src/apps/pulseport-service/main.cpp as a sequence of options.
use pulseport.Application.Arguments.{Invocation, parse_arguments}
use mathlib.Core.Path.{subst}
use pulseport.Prelude.{
  Bool, Bool-cases, List, eq_iff, inl, inr, sym, ◌∙◌, Option, String, [], false, if◌then◌else◌,
  none, refl, some, str_eq, true, ◌||◌, ◌∷◌, ◌≡◌,
}

pub data Token : Type 0 where
  console version help other : Token
  config : String → Token

-- The option that an argument other than "--config" is.
abbrev pub classify : String → Token
classify arg =
    if str_eq arg "--console" || str_eq arg "-c"
    then Token.console
    else if str_eq arg "--version" || str_eq arg "-v"
    then Token.version
    else if str_eq arg "--help" || str_eq arg "-h"
    then Token.help
    else Token.other

-- "--config" takes the argument after it, if there is one.
abbrev pub tokens : List String → List Token
tokens [] = []
tokens (arg ∷ []) = classify arg ∷ []
tokens (arg ∷ next ∷ args) =
    let with_config = Token.config next ∷ tokens args in
    let alone = classify arg ∷ tokens (next ∷ args) in
    if str_eq arg "--config" then with_config else alone

-- The first option that makes the program print something and leave.
abbrev pub first_exit : List Token → Option Invocation
first_exit [] = none
first_exit (Token.version ∷ ts) = some Invocation.show_version
first_exit (Token.help ∷ ts) = some Invocation.show_help
first_exit (_ ∷ ts) = first_exit ts

abbrev pub any_console : List Token → Bool
any_console [] = false
any_console (Token.console ∷ ts) = true
any_console (_ ∷ ts) = any_console ts

abbrev pub last_config : String → List Token → String
last_config path [] = path
last_config path (Token.config p ∷ ts) = last_config p ts
last_config path (_ ∷ ts) = last_config path ts

abbrev pub interpret : Bool → String → List Token → Invocation
interpret c path ts = elim (first_exit ts) [
  | some inv ↦ inv
  | none ↦ Invocation.run_program (c || any_console ts) (last_config path ts)
]

-- The step of `interpret` at an option.
abbrev pub follow : Token → Bool → String → (Bool → String → Invocation) → Invocation
follow Token.console c path rest = rest true path
follow Token.version c path rest = Invocation.show_version
follow Token.help c path rest = Invocation.show_help
follow Token.other c path rest = rest c path
follow (Token.config p) c path rest = rest c p

interpret-follow :
    (t : Token) (ts : List Token) (c : Bool) (path : String)
    → interpret c path (t ∷ ts) ≡ follow t c path (λ c p. interpret c p ts)
interpret-follow Token.console ts true path = refl
interpret-follow Token.console ts false path = refl
interpret-follow Token.version ts c path = refl
interpret-follow Token.help ts c path = refl
interpret-follow Token.other ts c path = refl
interpret-follow (Token.config p) ts c path = refl

follow-classify :
    (arg : String) (c : Bool) (path : String) (rest : Bool → String → Invocation)
    → follow (classify arg) c path rest ≡ (
        if str_eq arg "--console" || str_eq arg "-c"
        then rest true path
        else if str_eq arg "--version" || str_eq arg "-v"
        then Invocation.show_version
        else if str_eq arg "--help" || str_eq arg "-h"
        then Invocation.show_help
        else rest c path)
follow-classify arg c path rest = elim (Bool-cases (str_eq arg "--console" || str_eq arg "-c")) [
  | inl h ↦ rw h refl
  | inr h ↦ elim (Bool-cases (str_eq arg "--version" || str_eq arg "-v")) [
    | inl k ↦ rw (h, k) refl
    | inr k ↦ elim (Bool-cases (str_eq arg "--help" || str_eq arg "-h")) [
      | inl l ↦ rw (h, k, l) refl
      | inr l ↦ rw (h, k, l) refl
    ]
  ]
]

not_console :
    (arg : String)
    → str_eq arg "--config" ≡ true
    → (str_eq arg "--console" || str_eq arg "-c") ≡ false
not_console arg h =
    subst (λ a. (str_eq a "--console" || str_eq a "-c") ≡ false) (sym ((eq_iff arg "--config").0 h))
      refl

interpret_nil : (c : Bool) (path : String) → Invocation.run_program c path ≡ interpret c path []
interpret_nil true path = refl
interpret_nil false path = refl

-- The loop decides as the whole sequence of options says: the first of "--version", "-v", "--help" and "-h" makes the
-- program leave; with none of them it runs, in the console if one of "--console" and "-c" is there, with the
-- last "--config" that has an argument after it. Every other argument is passed over.
pub parse_arguments-interpret :
    (args : List String) (c : Bool) (path : String)
    → parse_arguments args c path ≡ interpret c path (tokens args)
unfolding parse_arguments
parse_arguments-interpret [] c path = interpret_nil c path
parse_arguments-interpret (arg ∷ []) c path =
    rw
      (
        interpret-follow (classify arg) [] c path,
        follow-classify arg c path (λ c p. interpret c p []),
        ← interpret_nil true path,
        ← interpret_nil c path,
      )
      refl
parse_arguments-interpret (arg ∷ next ∷ args) c path = elim (Bool-cases (str_eq arg "--config")) [
  | inl h ↦
      rw (h, not_console arg h)
        (parse_arguments-interpret args c next
          ∙ sym (interpret-follow (Token.config next) (tokens args) c path))
  | inr h ↦
      rw
        (
          h,
          interpret-follow (classify arg) (tokens (next ∷ args)) c path,
          follow-classify arg c path (λ c p. interpret c p (tokens (next ∷ args))),
          parse_arguments-interpret (next ∷ args) true path,
          parse_arguments-interpret (next ∷ args) c path,
        )
        refl
]
