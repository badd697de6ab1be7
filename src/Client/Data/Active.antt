-- ===== src/Client/Data/Active.antt =====
-- The argument of PORT that the client sends (data.go), as the server reads it
-- (server/session_transfer.go).
use ftp.Base.{
  ℕ, ◌+◌, ◌*◌, ◌/◌, ◌%◌, ◌^◌, ◌≤◌, [], ◌∷◌, ◌++◌, ◌≡◌, ◌≢◌, refl, ap, ◌∙◌, arith, some, Bytes, text,
  join, show_nat, show_int, parse_int, parse_int-show_nat, split, split-join, All, Option, pos,
  is_digit, true, false, show_nat-digits, show_nat-ne-nil,
}
use ftp.Session.State.{Ip, Env, Session, done, write, reply_line}
use ftp.Session.Address.{handle_port, port_parts, in_range, set_active}
use ftp.Session.Transfer.{validate_active_ip}
use ftp.Client.Data.{
  parse_v4, ip_of, parse_ip, dotted, format_port, port_arg, join_host_port, ip_kind,
}
use ftp.Client.Data.Hosts.{
  octet-show_nat, show_nat-Lacks, split_host_port-join, AllPlain-dotted, AllPlain-show_nat,
}

append-ne-nil : (g s : Bytes) → g ≢ [] → g ++ s ≢ []
append-ne-nil [] s h = absurd (h refl)
append-ne-nil (c ∷ g) s h = cc

ip_kind-digits : (g s : Bytes) → All (λ c. is_digit c ≡ true) g → ip_kind (g ++ b'.' ∷ s) ≡ b'.'
ip_kind-digits [] s h = refl
ip_kind-digits (c ∷ g) s h = ground (arith, ip_kind-digits g s h.1)

parse_v4-parts :
    (a b c d : ℕ)
    → a ≤ 255
    → b ≤ 255
    → c ≤ 255
    → d ≤ 255
    → parse_v4 (show_nat a ∷ show_nat b ∷ show_nat c ∷ show_nat d ∷ []) ≡ some (ip_of a b c d)
unfolding parse_v4
parse_v4-parts a b c d ha hb hc hd =
    rw (octet-show_nat a ha, octet-show_nat b hb, octet-show_nat c hc, octet-show_nat d hd) refl

pub split-dotted :
    (a b c d : ℕ)
    → split b'.' (dotted a b c d) ≡ show_nat a ∷ show_nat b ∷ show_nat c ∷ show_nat d ∷ []
unfolding text
split-dotted a b c d =
    let free = λ (n : ℕ). show_nat-Lacks b'.' n refl in
    split-join b'.' (show_nat a) (show_nat b ∷ show_nat c ∷ show_nat d ∷ []) (free a)
      (free b, (free c, (free d, tt)))

dotted-kind : (a b c d : ℕ) → ip_kind (dotted a b c d) ≡ b'.'
unfolding join text
dotted-kind a b c d = ip_kind-digits (show_nat a) _ (show_nat-digits a)

-- The argument of PORT.
abbrev pub port_text : ℕ → ℕ → ℕ → ℕ → ℕ → Bytes
port_text a b c d port = join (text ",") (
    show_nat a
    ∷ show_nat b
    ∷ show_nat c
    ∷ show_nat d
    ∷ show_nat (port / 256)
    ∷ show_nat (port % 256)
    ∷ [])

bytes_of :
    (a b c d : ℕ)
    → a ≤ 255
    → b ≤ 255
    → c ≤ 255
    → d ≤ 255
    → let n = a * 2 ^ 24 + b * 2 ^ 16 + c * 2 ^ 8 + d in
      (n / 2 ^ 24 ≡ a) × (n / 2 ^ 16 % 256 ≡ b) × (n / 2 ^ 8 % 256 ≡ c) × (n % 256 ≡ d)
bytes_of a b c d ha hb hc hd = omega arith

port_arg-ip_of :
    (a b c d port : ℕ)
    → a ≤ 255
    → b ≤ 255
    → c ≤ 255
    → d ≤ 255
    → port_arg (ip_of a b c d) (pos port) ≡ some (port_text a b c d port)
unfolding port_arg show_int
port_arg-ip_of a b c d port ha hb hc hd =
    let (e1, e2, e3, e4) = bytes_of a b c d ha hb hc hd in rw (e1, e2, e3, e4) refl

split-port_text :
    (a b c d port : ℕ)
    → split b',' (port_text a b c d port)
      ≡ show_nat a
        ∷ show_nat b
        ∷ show_nat c
        ∷ show_nat d
        ∷ show_nat (port / 256)
        ∷ show_nat (port % 256)
        ∷ []
unfolding text
split-port_text a b c d port =
    let free = λ (n : ℕ). show_nat-Lacks b',' n refl in
    split-join b',' (show_nat a) _ (free a)
      (free b, (free c, (free d, (free (port / 256), (free (port % 256), tt)))))

dotted-ne-nil : (a b c d : ℕ) → dotted a b c d ≢ []
unfolding join text
dotted-ne-nil a b c d = append-ne-nil (show_nat a) _ (show_nat-ne-nil a)

module _ (parse_v6 : Bytes → Option Ip) where
  -- An address in four numbers is read as that address.
  pub parse_ip-dotted :
      (a b c d : ℕ)
      → a ≤ 255
      → b ≤ 255
      → c ≤ 255
      → d ≤ 255
      → parse_ip parse_v6 (dotted a b c d) ≡ some (ip_of a b c d)
  unfolding parse_ip
  parse_ip-dotted a b c d ha hb hc hd =
      rw (dotted-kind a b c d, split-dotted a b c d) (parse_v4-parts a b c d ha hb hc hd)

  -- What the client sends for an address in four numbers.
  pub format_port-dotted :
      (a b c d port : ℕ)
      → a ≤ 255
      → b ≤ 255
      → c ≤ 255
      → d ≤ 255
      → port ≤ 65535
      → format_port parse_v6 (join_host_port (dotted a b c d) (show_nat port))
        ≡ some (port_text a b c d port)
  unfolding format_port
  format_port-dotted a b c d port ha hb hc hd hp =
      rw
        (
          format_port,
          split_host_port-join (dotted a b c d) (show_nat port) (dotted-ne-nil a b c d)
              (AllPlain-dotted a b c d) (AllPlain-show_nat port),
          parse_ip-dotted a b c d ha hb hc hd,
          parse_int-show_nat port (omega arith),
        )
        (port_arg-ip_of a b c d port ha hb hc hd)

in_range-byte : (n : ℕ) → n ≤ 255 → in_range 255 (parse_int (show_nat n)) ≡ some n
in_range-byte n h = rw (in_range, parse_int-show_nat n (omega arith)) (ground arith)

module _ {Ctx : Type 0} (e : Env Ctx) (s : Session Ctx) where
  port_parts-bytes :
      (h1 h2 h3 h4 : Bytes) (port : ℕ) (ip : Ip)
      → port ≤ 65535
      → e.net.parse_ip (join (text ".") (h1 ∷ h2 ∷ h3 ∷ h4 ∷ [])) ≡ some ip
      → port_parts e (h1 ∷ h2 ∷ h3 ∷ h4 ∷ show_nat (port / 256) ∷ show_nat (port % 256) ∷ []) s
        ≡ set_active e (text "PORT") ip port s
  unfolding port_parts
  port_parts-bytes h1 h2 h3 h4 port ip hp read =
      rw
        (
          port_parts,
          in_range-byte (port / 256) (omega arith),
          in_range-byte (port % 256) (omega arith),
          read,
        )
        (ap (λ n. set_active e (text "PORT") ip n s) (omega arith))

  handle_port-logged :
      (arg : Bytes) → s.is_logged_in ≡ true → handle_port e arg s ≡ port_parts e (split b',' arg) s
  unfolding handle_port
  handle_port-logged arg l = rw (handle_port, l) refl

  set_active-done :
      (ip : Ip) (port : ℕ)
      → validate_active_ip e ip ≡ true
      → s.mu ≡ false
      → set_active e (text "PORT") ip port s
        ≡ done (
            write
              (reply_line 200 (text "PORT" ++ text " command successful."))
              (record s { active_ip = e.net.ip_string ip; active_port = port }))
  unfolding set_active
  set_active-done ip port h m = rw (h, m) refl

  -- The client in active mode listens at an address in four numbers of a byte each, and a port. What
  -- it sends with PORT, the server accepts, in a session with a login and its mutex free, if it reads
  -- that address as the one of the control connection: it answers 200, and keeps that address and
  -- port as where it will connect to.
  pub handle_port-format_port :
      (parse_v6 : Bytes → Option Ip) (a b c d port : ℕ) (ip : Ip)
      → a ≤ 255
      → b ≤ 255
      → c ≤ 255
      → d ≤ 255
      → port ≤ 65535
      → s.is_logged_in ≡ true
      → s.mu ≡ false
      → e.net.parse_ip (dotted a b c d) ≡ some ip
      → validate_active_ip e ip ≡ true
      → (arg : Bytes) × (format_port parse_v6 (join_host_port (dotted a b c d) (show_nat port))
          ≡ some arg)
        × (handle_port e arg s
            ≡ done (
                write
                  (reply_line 200 (text "PORT" ++ text " command successful."))
                  (record s { active_ip = e.net.ip_string ip; active_port = port })))
  handle_port-format_port parse_v6 a b c d port ip ha hb hc hd hp l m f v = (
    port_text a b c d port,
    format_port-dotted parse_v6 a b c d port ha hb hc hd hp,
    handle_port-logged (port_text a b c d port) l
        ∙ ap (λ parts. port_parts e parts s) (split-port_text a b c d port)
        ∙ port_parts-bytes (show_nat a) (show_nat b) (show_nat c) (show_nat d) port ip hp f
        ∙ set_active-done ip port v m,
  )
