-- ===== src/Ui/Sidebar.antt =====
-- The left panel (internal/ui/sidebar.go). A key is the text of tea.KeyMsg.String().
use skall.Base.{
  ℕ, zero, suc, ◌+◌, ◌-◌, Bool, true, not, ◌&&◌, ◌||◌, Option, none, some, List, [], ◌∷◌, length,
  leb, ltb, if◌then◌else◌, ◌==◌,
}
use skall.Bytes.{Bytes, Bytes-eq, lit}
use skall.Chat.Lists.{Conversation, Group, Peer}

pub data SidebarTab : Type 0 where
  tab_conversations tab_groups tab_peers : SidebarTab

pub record Sidebar : Type 0 where
  pub conversations : List Conversation
  pub groups : List Group
  pub peers : List Peer
  pub active_tab : SidebarTab
  pub cursor : ℕ
  pub focused : Bool

-- newSidebar
abbrev pub new_sidebar : Sidebar
new_sidebar = record {
  conversations = [];
  groups = [];
  peers = [];
  active_tab = tab_conversations;
  cursor = 0;
  focused = true;
}

abbrev pub next_tab : SidebarTab → SidebarTab
next_tab tab_conversations = tab_groups
next_tab tab_groups = tab_peers
next_tab tab_peers = tab_conversations

abbrev pub previous_tab : SidebarTab → SidebarTab
previous_tab tab_conversations = tab_peers
previous_tab tab_groups = tab_conversations
previous_tab tab_peers = tab_groups

abbrev pub len_of : SidebarTab → Sidebar → ℕ
len_of tab_conversations m = length m.conversations
len_of tab_groups m = length m.groups
len_of tab_peers m = length m.peers

-- listLen
abbrev pub list_len : Sidebar → ℕ
list_len m = len_of m.active_tab m

-- clampCursor; the cursor is never negative.
unfoldable pub clamp_cursor : Sidebar → Sidebar
clamp_cursor m =
    if leb (list_len m) m.cursor && ltb 0 (list_len m)
    then record m { cursor = list_len m - 1 }
    else m

-- Update on a key
unfoldable pub update_key : Bytes → Sidebar → Sidebar
update_key key m =
    if not m.focused
    then m
    else if key == lit "tab"
    then record m { active_tab = next_tab m.active_tab; cursor = 0 }
    else if key == lit "shift+tab"
    then record m { active_tab = previous_tab m.active_tab; cursor = 0 }
    else if key == lit "up" || key == lit "k"
    then record m { cursor = m.cursor - 1 }
    else if key == lit "down" || key == lit "j"
    then (if ltb (m.cursor + 1) (list_len m) then record m { cursor = m.cursor + 1 } else m)
    else m

-- xs[i]
unfoldable pub get_elem? {ℓ} : {A : Type ℓ} → List A → ℕ → Option A
get_elem? [] i = none
get_elem? (x ∷ xs) zero = some x
get_elem? (x ∷ xs) (suc i) = get_elem? xs i

-- SelectedConversation, SelectedGroupID and SelectedPeer
unfoldable pub selected_conversation : Sidebar → Option Conversation
selected_conversation m = elim m.active_tab [
  | tab_conversations ↦ get_elem? m.conversations m.cursor
  | tab_groups ↦ none
  | tab_peers ↦ none
]

unfoldable pub selected_group : Sidebar → Option Group
selected_group m = elim m.active_tab [
  | tab_conversations ↦ none
  | tab_groups ↦ get_elem? m.groups m.cursor
  | tab_peers ↦ none
]

unfoldable pub selected_peer : Sidebar → Option Peer
selected_peer m = elim m.active_tab [
  | tab_conversations ↦ none
  | tab_groups ↦ none
  | tab_peers ↦ get_elem? m.peers m.cursor
]

unfoldable pub set_focused : Bool → Sidebar → Sidebar
set_focused f m = record m { focused = f }
