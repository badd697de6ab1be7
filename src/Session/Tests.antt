-- ===== src/Session/Tests.antt =====
-- A small driver and network, a session that meets them (server/session*.go), and a plain line.
pub mod Commands
pub mod Runs
pub mod Ports
use ftp.Base.{
  ◌||◌, split, parse_int, join, parse_uint, fields, ◌≤◌, ◌<◌, ◌%◌, ℕ, suc, true, false, Option,
  none, some, List, [], ◌∷◌, ◌≡◌, ◌≢◌, inr, refl, arith, Bytes, text, pos, ◌+◌, ◌==◌, trim_right,
  bytes_eq, cut, to_upper, if◌then◌else◌, ℤ, negsuc, ◌^◌, ◌-◌,
}
use ftp.Session.State.{
  write, ip_equal, reply, ◌>>=◌, v4, FileInfo, ClientContext, Config, Net, Env, ok, Session, done,
  panic, deadlock, Outcome, copying, retr, new_session, finals, reply_line,
}
use ftp.Session.Contract.{Inv, Serves, owed}
use ftp.Session.Contract.Commands.{handle_command-Serves, command_name, command_arg, IsBlank}
use ftp.Session.Contract.Lines.{handle_command-Handled, HandledIfDone}
use ftp.Session.Run.{session_answers, commands, new_session-Inv}
use ftp.Session.Run.Safety.{session_survives}
use ftp.Session.Run.Bounce.{no_bounce, IsTarget}
use ftp.Session.Gate.{late_unwind_aborts}
use ftp.Session.Site.{handle_site}
use ftp.Session.Contract.Site.{handle_site-Serves, site_chmod_panics, abor_line_deadlocks}
use ftp.Session.Info.{is_hash_name, handle_user, handle_pass}
use ftp.Session.Address.{
  set_active, handle_port, port_parts, try_ports, nth_port, handle_pasv, listen_passive,
}
use ftp.Session.Transfer.{start_transfer, handle_retr, validate_active_ip}
use ftp.Session.Ports.{passive_search_sound, passive_search_complete, nth_port_below}
use ftp.Session.Worker.{contains, worker_step, act, put_worker}
use ftp.Session.Dispatch.{handle_command, parse_line, guarded, dispatch, run_handler, find_handler}
use ftp.Session.Worker.{line, work, Event, run}

-- One peer address, which two texts denote.
abbrev pub net : Net
net = record {
  parse_ip =
      λ b. if bytes_eq b (text "h") || bytes_eq b (text "1.2.3.4") then some (v4 1) else none;
  ip_string = λ _. text "h";
  lookup_ip = λ _. none;
  next_port = pos 5;
  listen = λ _. some 7;
  accept = λ _. some 8;
  dial = λ _ _. some 9;
  handshake = λ _. true;
  unix_nano = text "0";
  is_timestamp = λ _. true;
}

-- A driver that holds one file, whatever the path; its context counts the changes.
abbrev pub a_file : FileInfo
a_file = record {
  name = text "f";
  is_dir = false;
  size = 3;
  mod_time = text "t";
  list_time = text "t";
  mode = text "m";
}

abbrev pub driver : ClientContext ℕ
driver = record {
  change_dir = λ _ c. (suc c, none);
  get_wd = λ _. ok (text "/");
  make_dir = λ _ c. (suc c, none);
  remove_dir = λ _ c. (suc c, none);
  delete_file = λ _ c. (suc c, none);
  rename = λ _ _ c. (suc c, none);
  list_dir = λ _ _. ok (a_file ∷ []);
  open_file = λ _ _ c. (suc c, ok (record { seek = none }));
  get_file_info = λ _ _. ok a_file;
  get_hash = λ _ _ _. ok (text "0");
  set_time = λ _ _ c. (suc c, none);
  chmod = λ _ _ c. (suc c, none);
  get_settings = λ _. none;
  depth = 2;
  message_file = λ _. none;
}

abbrev pub config : Config
config = record {
  tls = false;
  disable_mlsd = false;
  enable_dir_message = false;
  disabled_commands = λ b. bytes_eq b (text "DELE");
  server_name = text "s";
  remote_addr = text "h";
  local_addr = text "h";
  remote_ip = text "h";
}

abbrev pub env : Env ℕ
env = record { config = config; net = net; driver = driver; authenticate = λ _ _ _ _. ok 0 }

-- Logged in, with nothing else done.
abbrev pub entered : Session ℕ
unfolding new_session
entered = record (new_session false) { fs = some 0; is_logged_in = true }

pub entered-Inv : Inv entered
unfolding entered new_session is_hash_name bytes_eq text
entered-Inv = ground arith

pub pwd_not-IsBlank : ¬ IsBlank (text "PWD")
unfolding text trim_right
pwd_not-IsBlank h = ground arith

pub pwd_pass : command_name (text "PWD") ≢ text "PASS"
unfolding text trim_right parse_line cut to_upper
pwd_pass h = ground arith

pub pwd_abor : command_name (text "PWD") ≢ text "ABOR"
unfolding text trim_right parse_line cut to_upper
pwd_abor h = ground arith

pub pwd_site : command_name (text "PWD") ≢ text "SITE"
unfolding text trim_right parse_line cut to_upper
pwd_site h = ground arith
