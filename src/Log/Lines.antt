-- ===== src/Log/Lines.antt =====
-- What stands on the two streams after some calls.
use cpp_interface.Prelude.{
  ℕ, ◌≡◌, refl, ap, sym, ◌∙◌, List, [], ◌∷◌, ◌++◌, concat, map, if◌then◌else◌, ltb, append-nil,
  append_assoc, Bool-cases, inl, inr,
}
use cpp_interface.Log.{
  LogLevel, error_level, warning_level, info_level, debug_level, rank, Output, prefix, error,
  warning, info, debug,
}

-- The four functions.
pub data Call : Type 0 where
  of_error of_warning of_info of_debug : (text : List ℕ) → Call

abbrev pub call : LogLevel → Call → Output → Output
call level (of_error text) = error level text
call level (of_warning text) = warning level text
call level (of_info text) = info level text
call level (of_debug text) = debug level text

abbrev pub call_all : LogLevel → List Call → Output → Output
call_all level [] o = o
call_all level (c ∷ cs) o = call_all level cs (call level c o)

-- The line of a call, if its level is not above that of the log.
abbrev pub line : LogLevel → LogLevel → List ℕ → List ℕ
line level own text = if ltb (rank level) (rank own) then [] else prefix own ++ text

abbrev pub on_stderr : LogLevel → Call → List ℕ
on_stderr level (of_error text) = line level error_level text
on_stderr level (of_warning text) = line level warning_level text
on_stderr level (of_info text) = []
on_stderr level (of_debug text) = []

abbrev pub on_stdout : LogLevel → Call → List ℕ
on_stdout level (of_error text) = []
on_stdout level (of_warning text) = []
on_stdout level (of_info text) = line level info_level text
on_stdout level (of_debug text) = line level debug_level text

-- What one call adds.
abbrev Adds : LogLevel → Call → Output → Output → Type 0
Adds level c o p =
    (p.stderr ≡ o.stderr ++ on_stderr level c) × (p.stdout ≡ o.stdout ++ on_stdout level c)

call-Adds : (level : LogLevel) (c : Call) (o : Output) → Adds level c o (call level c o)
unfolding error warning info debug
call-Adds level (of_error text) o = elim (Bool-cases (ltb (rank level) (rank error_level))) [
  | inl e ↦ rw e (sym (append-nil o.stderr), sym (append-nil o.stdout))
  | inr e ↦ rw e (refl, sym (append-nil o.stdout))
]
call-Adds level (of_warning text) o = elim (Bool-cases (ltb (rank level) (rank warning_level))) [
  | inl e ↦ rw e (sym (append-nil o.stderr), sym (append-nil o.stdout))
  | inr e ↦ rw e (refl, sym (append-nil o.stdout))
]
call-Adds level (of_info text) o = elim (Bool-cases (ltb (rank level) (rank info_level))) [
  | inl e ↦ rw e (sym (append-nil o.stderr), sym (append-nil o.stdout))
  | inr e ↦ rw e (sym (append-nil o.stderr), refl)
]
call-Adds level (of_debug text) o = elim (Bool-cases (ltb (rank level) (rank debug_level))) [
  | inl e ↦ rw e (sym (append-nil o.stderr), sym (append-nil o.stdout))
  | inr e ↦ rw e (sym (append-nil o.stderr), refl)
]

-- Errors and warnings go to stderr, the others to stdout; on each stream the lines of the calls that
-- the level lets through stand whole, in the order of the calls, and nothing else.
call_all_lem :
    (level : LogLevel) (cs : List Call) (o : Output)
    → ((call_all level cs o).stderr ≡ o.stderr ++ concat (map (on_stderr level) cs))
      × ((call_all level cs o).stdout ≡ o.stdout ++ concat (map (on_stdout level) cs))
call_all_lem level [] o = (sym (append-nil o.stderr), sym (append-nil o.stdout))
call_all_lem level (c ∷ cs) o =
    let (err, out) = call-Adds level c o in
    let (errs, outs) = call_all_lem level cs (call level c o) in
    (
      errs ∙ ap (λ xs. xs ++ concat (map (on_stderr level) cs)) err ∙ append_assoc o.stderr _ _,
      outs ∙ ap (λ xs. xs ++ concat (map (on_stdout level) cs)) out ∙ append_assoc o.stdout _ _,
    )
