-- ===== src/Assertions.antt =====
-- Assert.cpp and the macro ODIN_ASSERT_3 of Assert.h: what happens when an assertion is checked. Texts
-- are lists of character codes. What is printed is recorded, and the formatting of a message, the log
-- file and the debugger's output are left out. The console gives one answer for each call of `fgets`.
-- MemAlloc.cpp is modelled with the answer `i` to every failed check (`assert_error` of Space).
pub mod Answers
use odin_memory_allocator.Base.{
  ℕ, ◌+◌, Bool, true, false, ◌&&◌, ◌||◌, Option, none, some, List, [], ◌∷◌, ◌++◌, leb, ◌==◌,
  if◌then◌else◌,
}

abbrev pub Text : Type 0
Text = List ℕ

pub data AssertLevel : Type 0 where
  debug warning error fatal : AssertLevel

pub data AssertAction : Type 0 where
  no_action abort debug_break ignore ignore_line ignore_all : AssertAction

-- What `fgets` gives: no line, or one.
pub data Read : Type 0 where
  no_line : Read
  line : Text → Read

pub data Printed : Type 0 where
  failed : (expression : Text) → AssertLevel → Printed
  place : (file : Text) → (line_number : ℕ) → (function : Text) → Printed
  with_message : (message : Text) → Printed
  prompt : Printed
  line_end : Printed

pub record Console : Type 0 where
  pub input : List Read
  pub output : List Printed

abbrev pub print : Printed → Console → Console
print p c = record c { output = c.output ++ p ∷ [] }

-- The `switch` on the letter; `none` is its default branch.
unfoldable pub action_of : ℕ → Option AssertAction
action_of c =
    if c == b'b' || c == b'B'
    then some abort
    else if c == b'd' || c == b'D'
    then some debug_break
    else if c == b'i' || c == b'I'
    then some ignore
    else if c == b'f' || c == b'F'
    then some ignore_line
    else if c == b'a' || c == b'A'
    then some ignore_all
    else none

abbrev pub print_message : Option Text → Console → Console
print_message none c = c
print_message (some message) c = print (with_message message) c

-- `strrchr(file, '/')`: what is behind the last slash, or all of it.
unfoldable pub behind_slash : (name rest : Text) → Text
behind_slash name [] = name
behind_slash name (c ∷ rest) = behind_slash (if c == b'/' then rest else name) rest

-- The state of all assertions: `ignored` holds the static variable `_ignore` of each of them.
pub record Assertions : Type 0 where
  pub ignore_all : Bool
  pub ignored : ℕ → Bool
  pub console : Console

abbrev pub ignore_site : ℕ → (ℕ → Bool) → ℕ → Bool
ignore_site i ignored j = if j == i then true else ignored j

-- How a check ends: still at the prompt, with the end of the program, or with a breakpoint or none.
pub data Checked : Type 0 where
  waits : Checked
  aborts : Console → Checked
  goes_on : (breakpoint : Bool) → Assertions → Checked

-- The `switch` of `handleAssert` at the assertion `site`, and the test on the action that it returns.
unfoldable pub act : (site : ℕ) → AssertAction → Assertions → Checked
act site no_action s = goes_on false s
act site abort s = aborts s.console
act site debug_break s = goes_on true s
act site ignore s = goes_on false s
act site ignore_line s = goes_on false (record s { ignored = ignore_site site s.ignored })
act site ignore_all s = goes_on false (record s { ignore_all = true })

-- One assertion in the code.
pub record Site : Type 0 where
  pub number : ℕ
  pub file : Text
  pub line_number : ℕ
  pub function : Text
  pub expression : Text
  pub level : AssertLevel
  pub message : Option Text

-- `scan` is what `sscanf_s(line, " %1[a-zA-Z] ", input)` reads into `input`, if it reads anything. It is
-- meant to be the letter behind leading white space. The call leaves out the size of the buffer that
-- the function takes behind it, so nothing is said of what it reads.
module _ (scan : Text → Option ℕ) where
  -- What a line answers.
  unfoldable pub answer_of : Text → Option AssertAction
  unfolding action_of
  answer_of text = elim (scan text) [ none ↦ none | some c ↦ action_of c ]

  -- The loop of `defaultHandler`: a prompt for each line until one answers. `none` means that the
  -- console has not answered yet.
  unfoldable pub ask : List Read → List Printed → Option (AssertAction × Console)
  unfolding answer_of
  ask [] output = none
  ask (no_line ∷ input) output = ask input (output ++ prompt ∷ line_end ∷ [])
  ask (line text ∷ input) output = elim (answer_of text) [
    | none ↦ ask input (output ++ prompt ∷ [])
    | some action ↦ some (action, record { input = input; output = output ++ prompt ∷ [] })
  ]

  module _ (file : Text) (line_number : ℕ) (function expression : Text) where
    abbrev announced : AssertLevel → Option Text → Console → Console
    announced level message c =
        print_message message
          (print (place file line_number function) (print (failed expression level) c))

    unfoldable pub default_handler :
        AssertLevel → (message : Option Text) → Console → Option (AssertAction × Console)
    unfolding ask
    default_handler debug message c = some (no_action, announced debug message c)
    default_handler warning message c = some (no_action, announced warning message c)
    default_handler error message c = let c1 = announced error message c in ask c1.input c1.output
    default_handler fatal message c = some (abort, announced fatal message c)

  unfoldable pub handle_assert : Site → Assertions → Checked
  unfolding default_handler behind_slash act
  handle_assert site s =
      elim (default_handler (behind_slash site.file site.file) site.line_number site.function
        site.expression site.level site.message s.console) [
          | none ↦ waits
          | some (action, console) ↦ act site.number action (record s { console = console })
        ]

  unfoldable pub odin_assert : Site → (expression : Bool) → Assertions → Checked
  unfolding handle_assert
  odin_assert site expression s =
      if s.ignored site.number || s.ignore_all
      then goes_on false s
      else if expression
      then goes_on false s
      else handle_assert site s
