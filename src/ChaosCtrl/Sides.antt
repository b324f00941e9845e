-- ===== src/ChaosCtrl/Sides.antt =====
-- Global flags may stand before the command, after it, and between its arguments.
use clusterprobe.Prelude.{String, true, false, List, [], ◌∷◌, ◌++◌, ◌≡◌, refl, arith, Each}
use clusterprobe.ChaosCtrl.Arguments.{
  split_after, split_command_args, is_command, is_global_flag, has_equals,
}

-- A global flag with its value in the next word or in its own, or an argument of the command.
pub data Item : Type 0 where
  flagged : String → String → Item
  joined : String → Item
  argument : String → Item

abbrev pub words : List Item → List String
words [] = []
words (flagged f v ∷ items) = f ∷ v ∷ words items
words (joined f ∷ items) = f ∷ words items
words (argument a ∷ items) = a ∷ words items

abbrev pub global_words : List Item → List String
global_words [] = []
global_words (flagged f v ∷ items) = f ∷ v ∷ global_words items
global_words (joined f ∷ items) = f ∷ global_words items
global_words (argument a ∷ items) = global_words items

abbrev pub arguments : List Item → List String
arguments [] = []
arguments (flagged f v ∷ items) = arguments items
arguments (joined f ∷ items) = arguments items
arguments (argument a ∷ items) = a ∷ arguments items

abbrev pub IsItem : Item → Type 0
IsItem (flagged f v) = (is_global_flag f ≡ true) × (has_equals f ≡ false)
IsItem (joined f) = (is_global_flag f ≡ true) × (has_equals f ≡ true)
IsItem (argument a) = is_global_flag a ≡ false

split_after-argument :
    (command a : String) (l : List String)
    → is_global_flag a ≡ false
    → split_after command (a ∷ l)
      ≡ record (split_after command l) { command_args = a ∷ (split_after command l).command_args }
unfolding split_after
split_after-argument command a [] h = ground arith
split_after-argument command a (b ∷ l) h = ground arith

split_after-joined :
    (command f : String) (l : List String)
    → is_global_flag f ≡ true
    → has_equals f ≡ true
    → split_after command (f ∷ l)
      ≡ record (split_after command l) { global_args = f ∷ (split_after command l).global_args }
unfolding split_after
split_after-joined command f [] h e = ground arith
split_after-joined command f (b ∷ l) h e = ground arith

split_after-flagged :
    (command f v : String) (l : List String)
    → is_global_flag f ≡ true
    → has_equals f ≡ false
    → split_after command (f ∷ v ∷ l)
      ≡ record (split_after command l) { global_args = f ∷ v ∷ (split_after command l).global_args }
unfolding split_after
split_after-flagged command f v l h e = ground arith

split_after-words :
    (command : String) (items : List Item)
    → Each IsItem items
    → split_after command (words items) ≡ record {
      global_args = global_words items;
      command = command;
      command_args = arguments items;
    }
unfolding split_after
split_after-words command [] h = refl
split_after-words command (flagged f v ∷ items) h =
    ground (arith, split_after-flagged command f v (words items), split_after-words command items)
split_after-words command (joined f ∷ items) h =
    ground (arith, split_after-joined command f (words items), split_after-words command items)
split_after-words command (argument a ∷ items) h =
    ground (arith, split_after-argument command a (words items), split_after-words command items)

-- The words before a command that are no commands, the command, and items in any order: the global
-- arguments are these words and the global flags among the items with their values, and the command
-- has the other items as its arguments, in their order.
pub split_command_args-words :
    (before : List String) (command : String) (items : List Item)
    → Each (λ word. is_command word ≡ false) before
    → is_command command ≡ true
    → Each IsItem items
    → split_command_args (before ++ (command ∷ words items)) ≡ record {
      global_args = before ++ global_words items;
      command = command;
      command_args = arguments items;
    }
unfolding split_command_args
split_command_args-words [] command items b c h = ground (arith, split_after-words command items)
split_command_args-words (word ∷ before) command items b c h =
    ground (arith, split_command_args-words before command items)
