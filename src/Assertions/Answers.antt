-- ===== src/Assertions/Answers.antt =====
-- Assert.cpp: the prompt ends with the first line that answers, and what is ignored from then on.
use mathlib.Core.List.{append_assoc, append-nil}
use odin_memory_allocator.Base.{
  ℕ, ◌≡◌, ◌∙◌, refl, ap, arith, Bool, true, false, Option, none, some, List, [], ◌∷◌, ◌++◌, ◌||◌,
  ◌==◌, if◌then◌else◌,
}
use odin_memory_allocator.Assertions.{
  Checked, aborts, ignore, debug_break, abort, action_of, Text, error, AssertAction, ignore_line,
  ignore_all, Read, no_line, line, Printed, prompt, line_end, Console, announced, answer_of, ask,
  default_handler, behind_slash, Assertions, goes_on, act, Site, handle_assert, odin_assert,
}

-- What is printed for such reads.
abbrev pub prompts : List Read → List Printed
prompts [] = []
prompts (no_line ∷ input) = prompt ∷ line_end ∷ prompts input
prompts (line text ∷ input) = prompt ∷ prompts input

-- The choices of the prompt, "(I)gnore / Ignore (F)orever / Ignore (A)ll / (D)ebug / A(b)ort", and the
-- letter of each, small or capital.
pub data Key : Type 0 where
  once forever all debugs aborting : Key

abbrev pub letter : Key → (capital : Bool) → ℕ
letter once capital = if capital then b'I' else b'i'
letter forever capital = if capital then b'F' else b'f'
letter all capital = if capital then b'A' else b'a'
letter debugs capital = if capital then b'D' else b'd'
letter aborting capital = if capital then b'B' else b'b'

-- What each does to the program, and to the assertions from then on.
abbrev pub outcome : Key → (site : ℕ) → Assertions → Checked
outcome once site s = goes_on false s
outcome forever site s =
    goes_on false (record s { ignored = λ j. if j == site then true else s.ignored j })
outcome all site s = goes_on false (record s { ignore_all = true })
outcome debugs site s = goes_on true s
outcome aborting site s = aborts s.console

key_action : Key → AssertAction
key_action once = ignore
key_action forever = ignore_line
key_action all = ignore_all
key_action debugs = debug_break
key_action aborting = abort

action_of-letter : (k : Key) (capital : Bool) → action_of (letter k capital) ≡ some (key_action k)
unfolding action_of key_action
action_of-letter once true = refl
action_of-letter once false = refl
action_of-letter forever true = refl
action_of-letter forever false = refl
action_of-letter all true = refl
action_of-letter all false = refl
action_of-letter debugs true = refl
action_of-letter debugs false = refl
action_of-letter aborting true = refl
action_of-letter aborting false = refl

act-key : (k : Key) (site : ℕ) (s : Assertions) → act site (key_action k) s ≡ outcome k site s
unfolding act key_action
act-key once site s = refl
act-key forever site s = refl
act-key all site s = refl
act-key debugs site s = refl
act-key aborting site s = refl

module _ (scan : Text → Option ℕ) where
  -- Reads that do not answer the prompt.
  abbrev pub Unanswered : List Read → Type 0
  Unanswered [] = Unit
  Unanswered (no_line ∷ input) = Unanswered input
  Unanswered (line text ∷ input) = (answer_of scan text ≡ none) × Unanswered input

  ask_lem :
      (unanswered : List Read) (text : Text) (chosen : AssertAction) (rest : List Read)
      (output : List Printed)
      → Unanswered unanswered
      → answer_of scan text ≡ some chosen
      → ask scan (unanswered ++ line text ∷ rest) output
        ≡ some (
          chosen,
          record { input = rest; output = (output ++ prompts unanswered) ++ prompt ∷ [] },
        )
  unfolding ask
  ask_lem [] text chosen rest output u answer = rw (answer, ask, append-nil) refl
  ask_lem (no_line ∷ unanswered) text chosen rest output u answer =
      ask_lem unanswered text chosen rest (output ++ prompt ∷ line_end ∷ []) u answer
      ∙ simp append_assoc
  ask_lem (line skipped ∷ unanswered) text chosen rest output u answer =
      rw (u.0, ask)
        (ask_lem unanswered text chosen rest (output ++ prompt ∷ []) u.1 answer ∙ simp append_assoc)

  module _ (site : Site) (s : Assertions) (unanswered : List Read) (text : Text)
      (rest : List Read) where
    -- The console when the line `text` has answered.
    abbrev pub answered : Console
    answered = record {
      input = rest;
      output =
          ((announced scan (behind_slash site.file site.file) site.line_number site.function
              site.expression error site.message s.console).output
            ++ prompts unanswered)
          ++ prompt ∷ [];
    }

    module _ (at_error : site.level ≡ error) (on : s.ignored site.number ≡ false)
        (all_on : s.ignore_all ≡ false) (reads : s.console.input ≡ unanswered ++ line text ∷ rest)
        (skipped : Unanswered unanswered) where
      announced_input :
          (message : Option Text)
          → (announced scan
              (behind_slash site.file site.file)
              site.line_number
              site.function
              site.expression
              error
              message
              s.console).input
            ≡ s.console.input
      announced_input none = refl
      announced_input (some message) = refl

      handler_answered :
          (chosen : AssertAction)
          → answer_of scan text ≡ some chosen
          → default_handler scan
              (behind_slash site.file site.file)
              site.line_number
              site.function
              site.expression
              site.level
              site.message
              s.console
            ≡ some (chosen, answered)
      unfolding default_handler
      handler_answered chosen answer =
          ap
            (λ l.
              default_handler scan (behind_slash site.file site.file) site.line_number site.function
                site.expression l site.message s.console)
            at_error
          ∙ ap (λ input. ask scan input printed) (announced_input site.message ∙ reads)
          ∙ ask_lem unanswered text chosen rest printed skipped answer
        where
          printed : List Printed
          printed =
              (announced scan (behind_slash site.file site.file) site.line_number site.function
                site.expression error site.message s.console).output

      answers :
          (k : Key) (capital : Bool)
          → scan text ≡ some (letter k capital)
          → answer_of scan text ≡ some (key_action k)
      unfolding answer_of
      answers k capital e = rw (answer_of, e) (action_of-letter k capital)

      acted :
          (chosen : AssertAction)
          → answer_of scan text ≡ some chosen
          → odin_assert scan site false s ≡ act site.number chosen (record s { console = answered })
      unfolding odin_assert handle_assert default_handler
      acted chosen answer = rw (heeded, handler_answered chosen answer, handle_assert) refl
        where
          heeded : (s.ignored site.number || s.ignore_all) ≡ false
          heeded = ground (arith, on, all_on)

      -- A failed assertion of the level ERROR that is not ignored prompts until a line answers:
      -- where the console gives reads that answer nothing and then a line of which the letter of a
      -- choice is read, small or capital, `I` lets the program go on, `F` also ignores this
      -- assertion from then on and `A` all of them, `D` stops at a breakpoint, and `B` ends the
      -- program. The announcement and a prompt for each read are printed, and the reads after the
      -- line are left.
      pub odin_assert-answered :
          (k : Key) (capital : Bool)
          → scan text ≡ some (letter k capital)
          → odin_assert scan site false s ≡ outcome k site.number (record s { console = answered })
      odin_assert-answered k capital reads_letter =
          acted (key_action k) (answers k capital reads_letter)
          ∙ act-key k site.number (record s { console = answered })

      -- Where the line that answers a failed assertion of the level ERROR says `ignore all`, the
      -- program goes on, and no later assertion prints, reads or stops, whatever its test.
      pub ignore_all_silences :
          answer_of scan text ≡ some ignore_all
          → (t : Assertions) × (odin_assert scan site false s ≡ goes_on false t)
            × ((other : Site) (expression : Bool)
                → odin_assert scan other expression t ≡ goes_on false t)
      unfolding act odin_assert
      ignore_all_silences answer = (
        record s { console = answered; ignore_all = true },
        acted ignore_all answer,
        λ other expression. rw (or_true (s.ignored other.number)) refl,
      )
        where
          or_true : (b : Bool) → (b || true) ≡ true
          or_true b = ground arith
