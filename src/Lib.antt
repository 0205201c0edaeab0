-- ===== src/Lib.antt =====
-- nsca_fast: a daemon that receives passive check results over TCP in the NSCA protocol and passes
-- them on to Nagios, by its command file or by files in its check result path.
--
-- The parts and the files that model them:
--   Crc          nsca_utils.cpp: generate_crc32_table, calculate_crc32. Crc/Serial is the CRC-32 bit
--                by bit, Crc/Detect the errors that it finds.
--   Crypt        nsca_utils.cpp and nsca_utils.h: struct crypt_instance (Crypt/Mcrypt), xorshf96 and
--                generate_transmitted_iv (Crypt/Random), generate_transmitted_iv_secure
--                (Crypt/Secure), encrypt_buffer and decrypt_buffer (Crypt/Buffer), encrypt_init and
--                encrypt_cleanup (Crypt/Init). libmcrypt is the record Mcrypt, a parameter.
--   Packet       nsca_common.h: data_packet as the list of its bytes, and the reads and writes of
--                its fields. Packet/Layout has the bounds of the texts, Packet/Wire the packet as a
--                client lays it out.
--   Client       network_client.cpp: the callbacks of a connection (Client/Connection), the loops
--                over its queue (Client/Queue), the test of a packet (Client/Judge) and
--                send_receive_message (Client/Deliver). libevent's buffers are the record Libevent,
--                a parameter, with the laws IsQueue; the two ways of delivery are the record
--                Delivery. The packets that a client sends are in Client/Judge/Wire and
--                Client/Queue/Sent; Client/Connection/Session is a connection from take_variables
--                to connection_closed, and Client/Connection/Finish who processes its queue then.
--   Config       config.cpp: Set, Get, GetInt and check_config, and read_config with its trims
--                (Config/Read), from the bytes of the file, which fgets cuts into lines of at most
--                4095 bytes.
--   Fifo         fifo_client.cpp: init_events and command.
--   ResultPath   result_path_client.cpp: the watch of the directory and its gate; ResultPath/Write is
--                write_result, and ResultPath/Writer is write_result_path of
--                result_path_writer.cpp, which nothing calls.
--   Network      network.cpp: the timer, stop, sigint and the statistics. Network/Exit is the event
--                loop as steps in any order, with the callbacks of Client as steps, and with SIGUSR1,
--                whose handler in Process calls stop, between two callbacks.
--                Network/Setup is the constructor, from the checked configuration, Network/Bind the
--                address that run listens on, Network/Ending the end of run and the destructor, and
--                Network/Report the timer with the file of Statistics that it saves.
--   Parent       the deliveries of Fifo and ResultPath together, as the interface Delivery of Client;
--                Parent/Arrive and Parent/Session put client, connection, queue and command file
--                together.
--   Threads      crypt_thread_t.cpp and threadManager.cpp: the queue and the loop of a crypt thread
--                and its join, as steps in any order of the thread and of the event loop's thread;
--                add_job (Threads/Deal), and start and join of the manager (Threads/Manager).
--   Process      processManager.cpp: the parent's table of workers, its signal handlers and its loop.
--                A turn of the loop has the answers of fork and the signals caught before the next.
--                Process/Downgrade is the change of user, and Process/Work what a worker does, with
--                its limits, and the lock of mainloop.
--   Start        main.cpp: the options, the settings that they override, and the start of the daemon,
--                which reads the configuration by Config/Read and checks it by Config; and mainloop,
--                which makes the parent of Process.
--   Statistics   stat_writer.cpp: a worker's file of statistics, as one of a map from paths to texts;
--                Statistics/Text is a reader of such a file.
--   Log          log.cpp: the levels, and the streams that a message is written to.
--   Prelude      shared names, lists and texts on native numbers, machine words, bits.
--
-- A connection's readcb queues packets; connection_closed hands the queue to process_queue, which
-- decrypts each packet on the crypt instance, judges it, and delivers its check by
-- send_receive_message, first to the command file and then to the result path.
--
-- The state of the network that connections share is passed explicitly: Settings for its fields
-- that stay, Counters for those that change. Undefined behaviour is `none`. An `unsigned long` has
-- 64 bits and wraps; an `int` is an integer, cut where the source casts to it. Loops are structural
-- recursion on the bytes, packets, lines or rounds that they run over, so that none needs fuel but
-- the printing of a number, whose twenty digits are enough below 2^64. The parent's endless loop
-- runs over a list of turns, of which fifteen are enough for its shutdown. The counters of bytes
-- stay below 2^64 and those of packets below 2^31.
--
-- main reads the settings; the parent's loop keeps its workers running; a worker runs a network,
-- whose event loop hands the queues of closed connections to the crypt threads, if there are any. A
-- shutdown goes from the parent's handler by SIGUSR1 to the network's stop, and when its event loop
-- has ended the threads are joined.
--
-- Not modelled: the sockets themselves and the addresses of peers, which are only logged; the
-- messages that the other files log, so that Log is modelled alone; the values that the limits are
-- set to, and the file with the pid (writepid of main.cpp); the help text and the redirection of
-- output in main.cpp; the warnings of config.cpp; and the destructors of crypt_thread_t,
-- threadManager and processManager, which free memory.
pub mod Prelude
pub mod Crc
pub mod Crypt
pub mod Packet
pub mod Client
pub mod Config
pub mod Fifo
pub mod ResultPath
pub mod Process
pub mod Network
pub mod Threads
pub mod Start
pub mod Statistics
pub mod Parent
pub mod Log
