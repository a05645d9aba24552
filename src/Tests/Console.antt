-- ===== src/Tests/Console.antt =====
-- A failed assertion, a line without an answer, and then one.
use odin_memory_allocator.Base.{
  ℕ, Option, ◌||◌, ◌&&◌, ◌==◌, leb, if◌then◌else◌, true, ◌≡◌, refl, Bool, false, some, none, [],
  ◌∷◌,
}
use odin_memory_allocator.Assertions.{
  error, ignore_all, no_line, line, Assertions, goes_on, Site, odin_assert, Text, answer_of,
}
use odin_memory_allocator.Assertions.Answers.{
  Unanswered, answered, forever, odin_assert-answered, ignore_all_silences,
}

abbrev is_space : ℕ → Bool
is_space c = c == 32 || (leb 9 c && leb c 13)

abbrev is_letter : ℕ → Bool
is_letter c = (leb b'a' c && leb c b'z') || (leb b'A' c && leb c b'Z')

-- The letter behind leading white space, if there is one.
abbrev first_letter : Text → Option ℕ
first_letter [] = none
first_letter (c ∷ cs) = if is_space c then first_letter cs else if is_letter c then some c else none

abbrev site : Site
site = record {
  number = 3;
  file = b'a' ∷ b'/' ∷ b'm' ∷ [];
  line_number = 332;
  function = b'f' ∷ [];
  expression = b'x' ∷ [];
  level = error;
  message = none;
}

abbrev asked : ℕ → Assertions
asked letter = record {
  ignore_all = false;
  ignored = λ i. false;
  console = record {
    input = no_line ∷ line (b'?' ∷ []) ∷ line (32 ∷ letter ∷ 10 ∷ []) ∷ [];
    output = [];
  };
}

unanswered : Unanswered first_letter (no_line ∷ line (b'?' ∷ []) ∷ [])
unfolding answer_of
unanswered = (refl, tt)

lower_a : answer_of first_letter (32 ∷ b'a' ∷ 10 ∷ []) ≡ some ignore_all
unfolding answer_of
lower_a = refl

odin_assert-answered_example :
    odin_assert first_letter site false (asked b'F')
    ≡ goes_on false (record (asked b'F') {
      ignored = λ j. if j == 3 then true else false;
      console =
          answered first_letter site
            (asked b'F')
            (no_line ∷ line (b'?' ∷ []) ∷ [])
            (32 ∷ b'F' ∷ 10 ∷ [])
            [];
    })
odin_assert-answered_example =
    odin_assert-answered first_letter site (asked b'F') (no_line ∷ line (b'?' ∷ []) ∷ [])
      (32 ∷ b'F' ∷ 10 ∷ []) [] refl refl refl refl unanswered forever true refl

ignore_all_silences_example :
    (t : Assertions) × (odin_assert first_letter site false (asked b'a') ≡ goes_on false t)
    × ((other : Site) (expression : Bool)
        → odin_assert first_letter other expression t ≡ goes_on false t)
ignore_all_silences_example =
    ignore_all_silences first_letter site (asked b'a') (no_line ∷ line (b'?' ∷ []) ∷ [])
      (32 ∷ b'a' ∷ 10 ∷ []) [] refl refl refl refl unanswered lower_a
