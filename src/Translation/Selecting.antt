-- ===== src/Translation/Selecting.antt =====
-- Runs of the context selection.
use mathlib.Core.List.{Permᴰ}
use truyenaudio_studio.Prelude.{ℕ, ◌≡◌, ◌≤◌, refl, none, some, [], ◌∷◌, ◌==◌, if◌then◌else◌, All}
use truyenaudio_studio.Prelude.Int.{pos}
use truyenaudio_studio.Translation.Context.{
  ContextItem, ContextSelection, Payload, ok, select_context, choose, insert_item, key_leb,
}
use truyenaudio_studio.Translation.Context.Budget.{tokens, IsPlaced, select_context-within}
use truyenaudio_studio.Translation.Context.Order.{select_context-perm}

abbrev digest : Payload → ℕ
digest p = p.total_tokens

abbrev term : ContextItem
term = record { id = 1; kind = []; text = 97 ∷ 98 ∷ []; priority = 5; estimated_tokens = none }

abbrev summary : ContextItem
summary = record {
  id = 2;
  kind = [];
  text = 97 ∷ [];
  priority = 3;
  estimated_tokens = some (pos 7);
}

abbrev character : ContextItem
character = record {
  id = 3;
  kind = [];
  text = 98 ∷ [];
  priority = 5;
  estimated_tokens = some (pos 4);
}

abbrev item_of : ℕ → ℕ → ContextItem
item_of priority id = if priority == 3 then summary else if id == 1 then term else character

abbrev selection : ContextSelection
selection = record {
  selected = summary ∷ term ∷ [];
  excluded = 3 ∷ [];
  total_tokens = 8;
  sha256 = 8;
  vector = none;
}

select_run : select_context digest (character ∷ term ∷ summary ∷ []) (pos 9) none ≡ ok selection
unfolding select_context choose insert_item key_leb
select_run = refl

select_context-within_example :
    (8 ≡ tokens (summary ∷ term ∷ []))
    × (8 ≤ 9)
    × All (IsPlaced 9 (summary ∷ term ∷ []) (3 ∷ []) 8) (character ∷ term ∷ summary ∷ [])
select_context-within_example =
    select_context-within digest (character ∷ term ∷ summary ∷ []) 9 none {selection = selection}
      select_run

select_context-perm_example :
    select_context digest (character ∷ term ∷ summary ∷ []) (pos 9) none
    ≡ select_context digest (term ∷ character ∷ summary ∷ []) (pos 9) none
select_context-perm_example =
    select_context-perm digest item_of (pos 9) none (refl, (refl, (refl, tt)))
      (Permᴰ.swap refl refl)
