-- ===== src/Pop3/Command.antt =====
-- The `commands` table of pop3d/handler.go and `parseCmd`.
use inbucket.Common.{
  Option, none, some, List, [], ◌∷◌, if◌then◌else◌, is_nil, Bytes, codes, equal, Unicode, to_upper,
  trim_right, split,
}

pub data Command : Type 0 where
  quit stat list retr dele noop rset top uidl user pass apop capa : Command

-- The keys of the map, each with the command that it stands for.
abbrev pub commands : List (Bytes × Command)
commands =
    (codes "QUIT", quit)
    ∷ (codes "STAT", stat)
    ∷ (codes "LIST", list)
    ∷ (codes "RETR", retr)
    ∷ (codes "DELE", dele)
    ∷ (codes "NOOP", noop)
    ∷ (codes "RSET", rset)
    ∷ (codes "TOP", top)
    ∷ (codes "UIDL", uidl)
    ∷ (codes "USER", user)
    ∷ (codes "PASS", pass)
    ∷ (codes "APOP", apop)
    ∷ (codes "CAPA", capa)
    ∷ []

unfoldable pub lookup_command : Bytes → List (Bytes × Command) → Option Command
lookup_command cmd [] = none
lookup_command cmd ((k, c) ∷ rest) = if equal cmd k then some c else lookup_command cmd rest

abbrev upper_first : Unicode → List Bytes → Bytes × List Bytes
upper_first u [] = ([], [])
upper_first u (w ∷ ws) = (to_upper u w, ws)

-- The command and its arguments; its `ok` is always true.
unfoldable pub parse_cmd : Unicode → Bytes → Bytes × List Bytes
parse_cmd u raw =
    let line = trim_right (codes "\r\n") raw in
    if is_nil line then ([], []) else upper_first u (split b' ' line)
