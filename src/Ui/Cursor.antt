-- ===== src/Ui/Cursor.antt =====
-- The cursor of the sidebar and the list that it is in (internal/ui/sidebar.go and app.go).
use skall.Base.{
  ℕ, zero, suc, ◌+◌, ◌-◌, ◌≡◌, ◌≢◌, ◌<◌, ◌≤◌, ◌⊎◌, inl, inr, refl, not, ◌&&◌, ◌||◌, Option, none,
  List, [], ◌∷◌, arith, length, leb, ltb, if_intro, ◌==◌,
}
use skall.Bytes.{Bytes, Bytes-eq, lit}
use skall.Chat.Lists.{Conversation, Group, Peer}
use skall.Ui.Sidebar.{
  Sidebar, SidebarTab, tab_conversations, tab_groups, tab_peers, len_of, list_len, clamp_cursor,
  update_key, get_elem?, selected_conversation, selected_group, selected_peer,
}
use skall.Ui.App.{App, Answers, open_selected, open_conversation, open_group, open_peer}

-- The cursor is on a row, or the list is empty and the cursor at its start.
abbrev pub IsPointed : Sidebar → Type 0
IsPointed m = (m.cursor ≡ 0) ⊎ (m.cursor < list_len m)

update_key-IsPointed : (key : Bytes) (m : Sidebar) → IsPointed m → IsPointed (update_key key m)
unfolding update_key
update_key-IsPointed key m h =
    if_intro IsPointed (not m.focused) _ _ (λ e. h)
      λ e.
        if_intro IsPointed (key == lit "tab") _ _ (λ e. inl refl)
          λ e.
            if_intro IsPointed (key == lit "shift+tab") _ _ (λ e. inl refl)
              λ e.
                if_intro IsPointed (key == lit "up" || key == lit "k") _ _ (λ e. back)
                  λ e.
                    if_intro IsPointed (key == lit "down" || key == lit "j") _ _
                      (λ e.
                        if_intro IsPointed (ltb (m.cursor + 1) (list_len m)) _ _
                          (λ t. inr (ground arith)) (λ t. h))
                      (λ e. h)
  where
    back : IsPointed (record m { cursor = m.cursor - 1 })
    back = elim h [ inl e ↦ inl (omega (arith, e)) | inr l ↦ inr (ground (arith, l)) ]

clamp_cursor-IsPointed : (m : Sidebar) → list_len m ≢ 0 → IsPointed (clamp_cursor m)
unfolding clamp_cursor
clamp_cursor-IsPointed m some_rows =
    if_intro IsPointed (leb (list_len m) m.cursor && ltb 0 (list_len m)) _ _
      (λ e. inr (ground arith)) (λ e. inr (ground (arith, some_rows)))

get_elem?-none {ℓ} : {A : Type ℓ} (xs : List A) (i : ℕ) → length xs ≤ i → get_elem? xs i ≡ none
unfolding get_elem?
get_elem?-none [] i h = refl
get_elem?-none (x ∷ xs) zero h = absurd (omega arith)
get_elem?-none (x ∷ xs) (suc i) h = get_elem?-none xs i (omega (arith, h))

selected_none :
    (m : Sidebar)
    → list_len m ≤ m.cursor
    → (selected_conversation m ≡ none) × (selected_group m ≡ none) × (selected_peer m ≡ none)
unfolding selected_conversation selected_group selected_peer
selected_none m past = by_tab m.active_tab past
  where
    by_tab :
        (tab : SidebarTab)
        → len_of tab m ≤ m.cursor
        → (elim tab as (λ _. Option Conversation) [
          | tab_conversations ↦ get_elem? m.conversations m.cursor
          | tab_groups ↦ none
          | tab_peers ↦ none
        ]
            ≡ none)
          × (elim tab as (λ _. Option Group) [
            | tab_conversations ↦ none
            | tab_groups ↦ get_elem? m.groups m.cursor
            | tab_peers ↦ none
          ]
              ≡ none)
          × (elim tab as (λ _. Option Peer) [
            | tab_conversations ↦ none
            | tab_groups ↦ none
            | tab_peers ↦ get_elem? m.peers m.cursor
          ]
              ≡ none)
    by_tab tab_conversations p = (get_elem?-none m.conversations m.cursor p, refl, refl)
    by_tab tab_groups p = (refl, get_elem?-none m.groups m.cursor p, refl)
    by_tab tab_peers p = (refl, refl, get_elem?-none m.peers m.cursor p)

-- When a refresh has left the cursor behind the end of its list, the enter key on the sidebar changes nothing.
open_selected_past_end :
    (svc : Answers) (m : App) → list_len m.sidebar ≤ m.sidebar.cursor → open_selected svc m ≡ m
unfolding open_selected open_conversation open_group open_peer
open_selected_past_end svc m past =
    let (no_conversation, no_group, no_peer) = selected_none m.sidebar past in
    rw (no_conversation, no_group, no_peer) refl
