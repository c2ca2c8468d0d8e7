-- ===== src/Pool/Pins.antt =====
-- The affinity of conversations to accounts in provider.go.
use Prim.Native.Char.{code}
use onegw.Prelude.{
  ℕ, ◌+◌, ◌*◌, String, Bool, false, ◌&&◌, ◌||◌, [], ◌∷◌, length, str_eq, ltb, leb, ◌==◌,
  if◌then◌else◌,
}
use onegw.Prelude.Assoc.{Entries, insert, delete}
use onegw.Pool.{second, Account, StickyPin, AccountPool}

abbrev pub max_sticky_pins : ℕ
max_sticky_pins = 4096

abbrev pub conv_pin_ttl : ℕ
conv_pin_ttl = 15 * 60 * second

-- Whether an identity begins with "s:" or "c:".
unfoldable pub is_conversation : String → Bool
is_conversation String.[] = false
is_conversation (String.◌∷◌ a String.[]) = false
is_conversation (String.◌∷◌ a (String.◌∷◌ b rest)) =
    ((code a == b's') || (code a == b'c')) && (code b == b':')

-- How long an identity stays pinned; 0 is not at all.
unfoldable pub pin_ttl : AccountPool → String → ℕ
unfolding is_conversation
pin_ttl p id =
    if str_eq id "" then 0 else if is_conversation id && (p.ttl == 0) then conv_pin_ttl else p.ttl

-- The pins that have not expired.
unfoldable pub sweep : ℕ → Entries StickyPin → Entries StickyPin
sweep now [] = []
sweep now (entry ∷ rest) =
    let kept = sweep now rest in if ltb entry.1.expires now then kept else entry ∷ kept

-- Room for a pin: a full map is swept, and emptied if that does not help.
unfoldable pub make_room : ℕ → Entries StickyPin → Entries StickyPin
make_room now pins =
    let kept = sweep now pins in
    if leb max_sticky_pins (length pins)
    then if leb max_sticky_pins (length kept) then [] else kept
    else pins

unfoldable pub pin : AccountPool → String → Account → ℕ → AccountPool
pin p id a now =
    let ttl = pin_ttl p id in
    if ttl == 0 then p else record p {
      sticky =
          insert id (record { pin_name = a.name; pin_key = a.api_key; expires = now + ttl })
            (make_room now p.sticky);
    }

unfoldable pub unpin : AccountPool → String → AccountPool
unpin p id = if str_eq id "" then p else record p { sticky = delete id p.sticky }
