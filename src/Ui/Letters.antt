-- ===== src/Ui/Letters.antt =====
-- The letters that are keys of the terminal interface (internal/ui/app.go).
use skall.Base.{◌≡◌, refl, ap, ◌∙◌, false, []}
use skall.Bytes.{Bytes, Bytes-eq, bytes_eq, lit}
use skall.Ui.App.{
  App, focus_sidebar, focus_chat, is_chat, Answers, key_msg, set_focus, update_chat_key,
}
use skall.Ui.Update.{delegate, update_local, update_app_key, update}
use skall.Ui.Focus.{IsFocused}

-- While the chat has the focus and no help is shown, q is text for the input and the application goes on;
-- h and l are not: they move the focus, and the input does not get them.
update_letters :
    (edit : Bytes → Bytes → Bytes) (svc : Answers) (m : App)
    → IsFocused m
    → m.focus ≡ focus_chat
    → m.show_help ≡ false
    → (update edit svc (key_msg (lit "q")) m ≡ (
      record m { chat_view = record m.chat_view { input = edit (lit "q") m.chat_view.input } },
      [],
    ))
      × (update edit svc (key_msg (lit "l")) m ≡ (set_focus focus_chat m, []))
      × (update edit svc (key_msg (lit "h")) m ≡ (set_focus focus_sidebar m, []))
unfolding update update_app_key update_local delegate update_chat_key bytes_eq
update_letters edit svc m h chat help =
    let in_chat = ap is_chat chat in
    (
      rw (chat, h.input_follows ∙ in_chat, h.chat_focused ∙ in_chat, help) refl,
      rw help refl,
      rw help refl,
    )
