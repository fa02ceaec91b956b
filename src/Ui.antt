-- ===== src/Ui.antt =====
-- The terminal interface (internal/ui): the sidebar, the chat view, and the messages and keys that the
-- application handles. Sizes, the viewport and the rendering are left out.
pub mod Sidebar
pub mod App
pub mod Update
pub mod Cursor
pub mod Focus
pub mod Listener
pub mod Hearing
pub mod Letters
