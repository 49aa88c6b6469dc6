-- ===== src/Smtp/Command.antt =====
-- The `commands` table of smtpd/handler.go and `parseCmd`.
use inbucket.Common.{
  Option, none, some, List, [], ◌∷◌, ltb, ◌==◌, if◌then◌else◌, length, take, drop, Bytes, codes,
  equal, Unicode, to_upper, trim, trim_right,
}

pub data Command : Type 0 where
  helo ehlo mail rcpt data_command rset send_command soml saml vrfy expn help noop quit turn :
      Command

-- The keys of the map, each with the command that it stands for.
abbrev pub commands : List (Bytes × Command)
commands =
    (codes "HELO", helo)
    ∷ (codes "EHLO", ehlo)
    ∷ (codes "MAIL", mail)
    ∷ (codes "RCPT", rcpt)
    ∷ (codes "DATA", data_command)
    ∷ (codes "RSET", rset)
    ∷ (codes "SEND", send_command)
    ∷ (codes "SOML", soml)
    ∷ (codes "SAML", saml)
    ∷ (codes "VRFY", vrfy)
    ∷ (codes "EXPN", expn)
    ∷ (codes "HELP", help)
    ∷ (codes "NOOP", noop)
    ∷ (codes "QUIT", quit)
    ∷ (codes "TURN", turn)
    ∷ []

unfoldable pub lookup_command : Bytes → List (Bytes × Command) → Option Command
lookup_command cmd [] = none
lookup_command cmd ((k, c) ∷ rest) = if equal cmd k then some c else lookup_command cmd rest

-- A command line: `none` where `ok` is false, and the command and its argument otherwise.
unfoldable pub parse_cmd : Unicode → Bytes → Option (Bytes × Bytes)
parse_cmd u raw =
    let line = trim_right (codes "\r\n") raw in
    let l = length line in
    if l == 0
    then some ([], [])
    else if ltb l 4
    then none
    else if l == 4
    then some (to_upper u line, [])
    else if l == 5
    then none
    else if equal (take 1 (drop 4 line)) (codes " ")
    then some (to_upper u (take 4 line), trim (codes " ") (drop 5 line))
    else none
