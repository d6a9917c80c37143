-- ===== src/Lib.antt =====
-- MiniFtp, the FTP server of miniftpd/: a model of its parts as executable functions.
--
-- The server accepts clients in one process (miniftpd/main.c), which counts them in two hash
-- tables (miniftpd/ftp_assist.c over miniftpd/hash.c) and forks a child for each. The child turns
-- the client away if there are too many, or forks again (miniftpd/session.c). One of its two
-- processes reads the lines of the control connection (miniftpd/ftp_proto.c over
-- miniftpd/sysutil.c), trims and splits each (miniftpd/strutil.c), and runs the command that it
-- names (miniftpd/command_map.c) on the session (miniftpd/session.h). The other opens the data
-- connections (miniftpd/ftp_nobody.c), and the first talks to it over a socket
-- (miniftpd/priv_sock.c): miniftpd/trans_data.c asks, miniftpd/priv_command.c answers and passes
-- a descriptor. The transfers are slowed down by miniftpd/trans_ctrl.c. When a child exits, the
-- signal handler of miniftpd/ftp_assist.c takes it out of the tables.
--
--   Base       shared names, byte strings, the native integers, runs that may abort
--   Strutil    miniftpd/strutil.c: str_trim_crlf, str_split, str_all_space, str_upper,
--              str_to_longlong, str_octal_to_uint. A char array is the list of its bytes with its
--              size, and a write past its end is none. Its children Trim, Ending, Split and
--              Numbers hold the lemmas.
--   Hash       miniftpd/hash.c: hash_alloc, hash_add_entry, hash_lookup_value_by_key,
--              hash_free_entry, hash_clear_entry. A bucket is the list of its nodes, from the head
--              on; an assertion that fails is abort. The abstract view (Chain, Laws) gives each key
--              the stack of its values.
--   Config     miniftpd/configure.c: the tunables and their initial values
--   ParseConf  miniftpd/parse_conf.c: parse_conf_load_file over the bytes of the file, line by line
--              as fgets reads them, and parseconf_load_setting through its arrays of 128 bytes. A
--              write or read past the end of an array is abort. Settings and Lines hold the
--              theorems.
--   Clients    miniftpd/ftp_assist.c: add_clients_to_hash, add_pid_ip_to_hash, handle_sigchld,
--              limit_num_clients. Accounts states that the tables agree, and Reap follows the
--              signal handler.
--   Server     miniftpd/main.c: server_init and the loop of server_begin, cut into steps at the
--              calls that wait or that a signal can come between. A run is a list of events of the
--              kernel: a client, a timeout, the result of fork, exits of children. The theorems on
--              runs are in Accounting and History. Start is server_init with the checks and the
--              configuration file.
--   Child      miniftpd/main.c: the branch of the child in server_begin, with the replies of
--              limit_num_clients in miniftpd/ftp_assist.c, and session_begin of
--              miniftpd/session.c. Which of its processes is followed is what fork returns to it.
--              Limits and Outcomes are about whom the child serves and when it comes back, Roles
--              about the ends of the socket.
--   Sysutil    miniftpd/sysutil.c: readn, recv_peek, readline and writen. What the kernel does is
--              a schedule, a list of results of single calls: a failure, an interruption, or some
--              bytes. A function whose schedule is used up hangs.
--   Session    miniftpd/session.h and session_init of miniftpd/session.c, and the monad of the
--              commands: a computation returns, exits, is ended by a signal, hangs or faults, and keeps the system calls
--              and the replies in a trace. Invariant has a rule for each way to build one, for
--              what all its outcomes keep.
--   Commands   miniftpd/command_map.c: ftp_reply, ftp_lreply, the commands (Handlers), the table
--              and do_command_map (Table), with the codes of miniftpd/ftp_code.h (Codes). The
--              theorems are in Framing, Login, Renaming, Dispatch and Answers. Sound states what no
--              command changes in the session; Sockets, PrivSock, Nobody, TransCtrl, TransData
--              and Proto have a module of that name for their part of it. Sample is a system to
--              run the commands on.
--   Sockets    miniftpd/sysutil.c: the sockets with their timeouts, the local address, the locks
--              and the clock, on Session.Kernel, the record of what the kernel answers. Calls and
--              Connect hold what they do where the calls are granted.
--   PrivSock   miniftpd/priv_sock.c: the messages between the two processes, with send_fd and
--              recv_fd of miniftpd/sysutil.c. Transport is about bytes under any schedule, Messages
--              about what one end sends and the other reads.
--   Nobody     miniftpd/priv_command.c and miniftpd/ftp_nobody.c: the four operations and the loop
--              of handle_nobody. Replies holds the answer to each command, Loop the run to the end
--              of the input, and Ending that run with the handler of SIGCHLD and the tables that
--              the process has from the server.
--   TransData  miniftpd/trans_data.c: get_trans_data_fd, and PASV. Listing is LIST and NLST with
--              the letters of a mode (Perms); Transfer is upload_file and download_file, with the
--              loops (Upload, Download) and the whole transfers (Storing, Retrieving). Exchange,
--              Modes, Sides and Agreement are about the two processes. Transfer.transfers fills
--              the commands on a data connection of the table of the commands.
--   TransCtrl  miniftpd/trans_ctrl.c: limit_curr_rate (theorem in Rate), the alarms (Alarms) and
--              their handlers, with nano_sleep of miniftpd/sysutil.c
--   Proto      miniftpd/ftp_proto.c: handle_proto, which greets and runs a command for each line
--              that readline takes, up to clean_command. Lines is about one line, Serve about the
--              loop and the lines of the stream, Script about a client that sends whole commands,
--              Steps and Sessions about whole sessions on that.
--
-- Bounds and fuel. Unsigned numbers of the tables wrap at 2 ^ 32; the theorems on runs of the
-- server are about fewer than 2 ^ 32 events, so that no count wraps, and say so. The loop of
-- readline has maxline as its fuel, since each round takes at least one byte of maxline - 1. The
-- loop over the configuration file has the length of the file as its fuel, since fgets reads at
-- least one byte. The loop of handle_nobody has one round more than bytes arrive, since each
-- round reads at least one, and so has that of handle_proto. The other loops recur on their data
-- or on their schedule; a select, a lock, a sleep, a read or a sendfile that is interrupted takes
-- one step of its schedule.
--
-- Parameters. The answers of the system and of the C library (getpwnam, getpwuid, getspnam,
-- crypt, getcwd, atoll, sscanf, and whether a call succeeds) are fields of Env, and those about
-- sockets, files, addresses and times are fields of Kernel: functions of what has happened so
-- far. atoi is an argument of ParseConf, and Double is a record of what the code does with
-- double. The table of the commands takes those on a data connection as the record Transfers.
--
-- Signals. A write that raises SIGPIPE ends the process, since the server does not ignore it.
-- The process of handle_nobody inherits the handler of SIGCHLD and the tables: the handler
-- runs there between two commands, for the children that Kernel names, and a failed assertion
-- of it aborts the process.
--
-- Not modelled: how the two processes of a client run beside each other. Each is run on what
-- arrives at it, and what one sends and the other reads is compared. The handlers of SIGALRM
-- are computations of their own, and their setting is a call: they do not run inside a
-- transfer or a readline. Left out are print_conf and the other lines that only print, the
-- headers that only declare, the older upload_file that is commented out, and test_ls.c, which
-- is a trial program. The pointers between the nodes of a bucket are the order of a list, and
-- memory that is allocated is always there.
pub mod Base
pub mod Strutil
pub mod Hash
pub mod Config
pub mod Child
pub mod Clients
pub mod Server
pub mod Sockets
pub mod Sysutil
pub mod Session
pub mod Commands
pub mod ParseConf
pub mod Proto
pub mod PrivSock
pub mod Nobody
pub mod TransCtrl
pub mod TransData
