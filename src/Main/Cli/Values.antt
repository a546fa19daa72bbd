-- ===== src/Main/Cli/Values.antt =====
-- The values that flag.Parse leaves in the variables of main.go's flags.
use dnslb.Base.{
  Option, some, List, [], ◌∷◌, ◌++◌, Str, Dict, lookup, value_or, ◌≡◌, refl, sym, ◌∙◌, ap,
  Option-cases, inl, inr, append_assoc, append-nil,
}
use dnslb.Flags.{string_slice_set}
use dnslb.Main.Cli.{
  FlagValue, string_flag, int_flag, bool_flag, slice_flag, map_flag, peers_flag, FlagLib,
  Occurrence, map_option, set_flag, parse_flags,
}
use dnslb.Main.Cli.Texts.{texts_of, set_texts, set_texts_step, parse_flags-texts_of}

-- What the last of the texts is read as, or the default if there is none.
abbrev pub last_read : {A : Type 0} → (Str → Option A) → A → List Str → A
last_read read a [] = a
last_read read a (t ∷ ts) = last_read read (value_or a (read t)) ts

-- A variable that each text replaces.
set_texts-last :
    {A : Type 0} (lib : FlagLib) (kind : A → FlagValue) (read : Str → Option A)
    → ((a : A) (t : Str) → set_flag lib (kind a) t ≡ map_option kind (read t))
    → (a : A) (ts : List Str) (f : FlagValue) → set_texts lib (kind a) ts ≡ some f
    → f ≡ kind (last_read read a ts)
unfolding set_texts
set_texts-last lib kind read one a [] f h = cc
set_texts-last lib kind read one a (t ∷ ts) f h = elim (Option-cases (read t)) [
  | inl bad ↦ cc (rw (set_texts, one a t, bad) at h)
  | inr (b, good) ↦
      let accepted : set_flag lib (kind a) t ≡ some (kind b) =
        one a t ∙ ap (map_option kind) good in
      rw good (
        set_texts-last lib kind read one b ts f
          (sym (set_texts_step lib (kind a) (kind b) t ts accepted) ∙ h))
]

-- A variable to which each text is added.
set_texts-append :
    (lib : FlagLib) (l ts : List Str) (f : FlagValue)
    → set_texts lib (slice_flag l) ts ≡ some f
    → f ≡ slice_flag (l ++ ts)
unfolding set_texts set_flag string_slice_set
set_texts-append lib l [] f h = cc (h, append-nil l)
set_texts-append lib l (t ∷ ts) f h =
    set_texts-append lib (l ++ t ∷ []) ts f h ∙ ap slice_flag (append_assoc l (t ∷ []) ts)

-- What the texts of its flag leave in a variable, by its type.
abbrev pub left_by : FlagLib → FlagValue → List Str → FlagValue
left_by lib (string_flag s) ts = string_flag (last_read some s ts)
left_by lib (int_flag i) ts = int_flag (last_read lib.read_int i ts)
left_by lib (bool_flag b) ts = bool_flag (last_read lib.read_bool b ts)
left_by lib (slice_flag l) ts = slice_flag (l ++ ts)
left_by lib (map_flag m) ts = value_or (map_flag m) (set_texts lib (map_flag m) ts)
left_by lib (peers_flag m) ts = value_or (peers_flag m) (set_texts lib (peers_flag m) ts)

set_texts-left_by :
    (lib : FlagLib) (f x : FlagValue) (ts : List Str)
    → set_texts lib f ts ≡ some x
    → x ≡ left_by lib f ts
unfolding set_flag
set_texts-left_by lib (string_flag s) x ts h =
    set_texts-last lib string_flag some (λ b t. refl) s ts x h
set_texts-left_by lib (int_flag i) x ts h =
    set_texts-last lib int_flag lib.read_int (λ b t. refl) i ts x h
set_texts-left_by lib (bool_flag b) x ts h =
    set_texts-last lib bool_flag lib.read_bool (λ c t. refl) b ts x h
set_texts-left_by lib (slice_flag l) x ts h = set_texts-append lib l ts x h
set_texts-left_by lib (map_flag m) x ts h = sym (ap (value_or (map_flag m)) h)
set_texts-left_by lib (peers_flag m) x ts h = sym (ap (value_or (peers_flag m)) h)

-- If flag.Parse accepts the command line, then a variable of type string, int or bool has the value of
-- the last text that its own flag was given, or its default if there was none; a StringSlice has its
-- default and behind it all the texts of its own flag, in their order; and a map has what Set makes
-- of those texts, one after another.
pub parse_flags_lem :
    (lib : FlagLib) (found : List Occurrence) (vars vars' : Dict FlagValue) (name : Str)
    (f : FlagValue)
    → parse_flags lib found vars ≡ some vars'
    → lookup name vars ≡ some f
    → lookup name vars' ≡ some (left_by lib f (texts_of name found))
parse_flags_lem lib found vars vars' name f parsed before =
    let (x, all, after) = parse_flags-texts_of lib found vars vars' name f parsed before in
    after ∙ ap some (set_texts-left_by lib f x (texts_of name found) all)
