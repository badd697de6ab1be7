-- ===== src/Client/Wire.antt =====
-- control.go and client.go: the state of a client, and how it sends a command and reads the response.
-- What is beyond the connection is a state of any type, which a record of functions changes.
use ftp.Base.{ℕ, Bool, Option, none, some, List, ◌++◌, Bytes, if◌then◌else◌, ℤ, pos, int_eq}
use ftp.Client.Reply.{
  Response, ReadError, got, bad, read_response, command_line, expect_code, expect_2xx, as_expected,
  protocol_error, Reply,
}
use ftp.Client.Listing.{ListingParser}

-- Why an operation failed. `protocol` is a ProtocolError: the command, and the response to it.
pub data ClientError : Type 0 where
  unread : ReadError → ClientError
  unsent invalid no_transfer unreachable copy_failed : ClientError
  protocol : Bytes → Response → ClientError

pub data Result (A : Type 0) : Type 0 where
  ok : A → Result A
  err : ClientError → Result A

-- What the client meets: sending a line gives the lines that arrive in answer, or fails; closing a
-- data connection likewise; a data connection to an address may be had, and what it yields before
-- it ends may end by an error; sending over it may fail.
pub record Wire (S : Type 0) : Type 0 where
  pub respond : Bytes → S → Option (S × List Bytes)
  pub close_data : ℕ → S → Option (S × List Bytes)
  pub dial : Bytes → S → S × Option ℕ
  pub listen : S → S × Option (ℕ × Bytes)  -- a listener, and the address that it has
  pub receive : ℕ → S → S × Bytes × Bool
  pub send : ℕ → Bytes → S → S × Bool

-- The fields of `Client` that its operations read or change after it was set up.
pub record Client : Type 0 where
  pub host : Bytes
  pub active_mode : Bool
  pub disable_epsv : Bool
  pub parsers : List ListingParser
  pub current_type : Bytes
  pub features : Option (List (Bytes × Bytes))
  pub active_data_conn : Option ℕ

-- A client with what it has not read yet, and what is beyond its connection.
pub record Conn (S : Type 0) : Type 0 where
  pub client : Client
  pub input : List Bytes
  pub peer : S

abbrev pub M : Type 0 → Type 0 → Type 0
M S A = Conn S → Conn S × Result A

module _ {S : Type 0} where
  infixl 5 ◌>>=◌ ◌>>◌
  abbrev pub ◌>>=◌ : {A B : Type 0} → M S A → (A → M S B) → M S B
  ◌>>=◌ m f c = elim (m c).1 [ err x ↦ ((m c).0, err x) | ok a ↦ f a (m c).0 ]

  abbrev pub ◌>>◌ : {A B : Type 0} → M S A → M S B → M S B
  m >> k = m >>= λ _. k

  abbrev pub pure : {A : Type 0} → A → M S A
  pure a c = (c, ok a)

  abbrev pub raise : {A : Type 0} → ClientError → M S A
  raise x c = (c, err x)

  -- A change of the client's fields.
  abbrev pub modify : (Client → Client) → M S (Unit {0})
  modify f c = (record c { client = f c.client }, ok tt)

  -- `readResponse` on the client's reader.
  unfoldable pub next_response : M S Response
  next_response c = elim (read_response c.input) [
    | got r rest ↦ (record c { input = rest }, ok r)
    | bad x rest ↦ (record c { input = rest }, err (unread x))
  ]

  module _ (w : Wire S) where
    -- `sendCommand`
    unfoldable pub send_command : Bytes → List Bytes → M S Response
    unfolding next_response
    send_command command args c = elim (w.respond (command_line command args) c.peer) [
      | none ↦ (c, err unsent)
      | some (peer, lines) ↦ next_response (record c { peer = peer; input = c.input ++ lines })
    ]

    abbrev pub checked : Bytes → Reply → M S Response
    checked command (as_expected r) = pure r
    checked command (protocol_error r) = raise (protocol command r)

    -- `expectCode`
    unfoldable pub expect_code_of : ℤ → Bytes → List Bytes → M S Response
    unfolding send_command
    expect_code_of code command args = do
      r ← send_command command args
      checked command (expect_code code r)

    -- `expect2xx`
    unfoldable pub expect_2xx_of : Bytes → List Bytes → M S Response
    unfolding send_command
    expect_2xx_of command args = do r ← send_command command args; checked command (expect_2xx r)

    -- A command whose response must have one code, with the response.
    abbrev pub require : ℕ → Bytes → Response → M S (Unit {0})
    require code command r =
        if int_eq r.code (pos code) then pure tt else raise (protocol command r)
