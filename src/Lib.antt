-- ===== src/Lib.antt =====
-- Verification of vzgot, a supervisor of Linux containers.
--
-- The program `vzgot` (app/vzgot.c) reads an action word and runs one procedure for it. `boot` forks
-- into the background, takes the container's lock (lib/unilck.c), prepares the container, clones
-- its process, lets it go on over a pipe, and watches it in cont_attend until it ends or is to be
-- stopped; a reboot starts the preparation again. The helpers below are the text functions and the
-- signal latch (lib/utlapl.c), pointer arrays (lib/utlvec.c) and process lists (lib/subprc.c).
--
-- How the code is modelled:
-- - a `while (proceed) switch (phase)` procedure is a function for each group of phases; `goto
--   TOOBAD`, `phase=999` and `goto REBOOT` are results that the caller takes apart;
-- - what the kernel, the scripts and the file system answer is a `World`, a record of functions of
--   the trace: the answer to a call may depend on all calls before it. The trace is the list of
--   calls with their answers, newest first. Nothing is assumed of a world but what a theorem names;
-- - memory that the code allocates is the list of its cells; a read or write outside is `none`;
-- - numbers are natural numbers: process numbers, counts and wait statuses here never are negative.
--   Overflow of 32-bit counters is not modelled.
--
-- Files:
-- - Base: shared names; Base.Tests, Boolean tests; Base.Lists, lists with native lengths;
--   Base.Int, the integers.
-- - Text (lib/utlapl.c): apl_cleanstring, apl_getstr, apl_getvoca as clean_string, getstr, getvoca.
--   Text.Clean, Text.Eol, Text.Escape and Text.Voca are on one of them each.
-- - Signal (lib/utlapl.c): trapsig and apl_checksig on the counts and the request flags;
--   Signal.Round, Signal.Check.
-- - Vector (lib/utlvec.c): vec_sizelstlst, vec_addlstlst, vec_mrglstlst, vec_rmlstlst and
--   vec_freelstlst as size, add, merge, remove, free_all; Vector.Array and
--   Vector.Erase have the view as a list.
-- - Process (lib/subprc.c): prc_checkprocess, prc_addtoprc, prc_childcheck, prc_childkill;
--   Process.Check, Process.Kill, Process.Aim, Process.Delay.
-- - Lock (lib/unilck.c): rm_lock and lck_locking; Lock.Steal, Lock.Outcome, Lock.Wait.
-- - Boot (app/vzgot.c, boot): prepare, confine and supervise are phases 2 to 15, cleanup and finish
--   16 to 19; Boot.Chain has the rules for chains of phases, Boot.Clearance, Boot.Ending and
--   Boot.Failure use them.
-- - Attend (app/vzgot.c, cont_attend), over cont_shutdown of Command: Attend.Modes, Attend.Kill,
--   Attend.Status, Attend.Stop.
-- - Command (app/vzgot.c): action and the procedures that it chooses from; Command.Params,
--   Command.Dispatch, Command.Shutdown, Command.Sigkill. Command.Main is main, with Command.Options.
-- - Cpu (lib/utlsys.c, lib/subprc.c): sys_get_numcpu and prc_getnbrcpu as get_numcpu and getnbrcpu;
--   Cpu.Count. sscanf is a parameter: of a text that starts with two numbers with a `-` in between,
--   it gives the two.
-- - Time (lib/utlapl.c): apl_chrono_ms and apl_uptime; Time.Fields.
-- - Clone (app/vzgot.c): setarch, doboot and start_clone as set_arch, doboot and start_clone; confine
--   is phases 2 to 16 of doboot, start_init phase 17. Clone.Confine is on the order of the calls,
--   Clone.Descriptors on the standard descriptors.
-- - Config (lib/subcfg.c): gesenv and cfg_loadconfig as gesenv and loadconfig; Config.Lines,
--   Config.Order, Config.Total. Text.Scan has the conversions of sscanf that they use.
-- - Template (lib/unicfg.c): cfg_open_online, cfg_update_online and cfg_flush_online as open_online,
--   update_online and flush_online. Template.Voc is the table and the lookup, Template.Buffer the
--   editing at the end of do_resolv; Template.Names, Template.Load, Template.Edit, Template.Update,
--   Template.Substitute and Template.Flush are on them.
-- - Console (app/vzgot.c): track_console and pty_tracker; Console.Steps, Console.Log.
-- - Pid (lib/unicnt.c): cnt_set_cont_pid, cnt_get_cont_pid, cnt_rm_cont_pid and
--   cnt_get_monitoring_pid as set_cont_pid, get_cont_pid, rm_cont_pid and get_monitoring_pid;
--   Pid.Digits, Pid.File, Pid.Monitor.
-- - Cpuinfo (lib/unicnt.c): skipcpuinfo, duplicate and the loop of setcpuinfo as skip_cpu, duplicate
--   and copy_cpus; Cpuinfo.Block, Cpuinfo.Skip, Cpuinfo.Blocks.
-- - Meminfo (lib/unicnt.c, lib/subprc.c, lib/utlsys.c): setmeminfo, prc_getcgroupmem,
--   sys_read_sys_long and the numbers of setswapsinfo as set_meminfo, get_cgroup_mem, read_sys_long
--   and set_swapsinfo; Meminfo.Report. strtoll is a parameter, of which one theorem supposes that
--   its number fits a `u_vlong`.
-- - Sysfs (lib/utlsys.c): sys_get_sysfs, sys_write_str, sys_write_sys_long, sys_move_to_cgroup,
--   sys_attach_to_cgroup, sys_pin_cgroup_ns and sys_clean_all_cgroup, without their prefix;
--   Sysfs.Calm has the rules for what a function adds to the calls made, Sysfs.Move is on the
--   moves. Limits (lib/unicnt.c, lib/subprc.c, lib/utlapl.c) is cgroup_limits with prc_setpidsmax,
--   prc_setmemmax and apl_getdouble; Limits.Floors, Limits.Swap. The type double is a parameter of
--   which nothing is supposed. Cgroup (lib/unicnt.c) is cnt_set_cgroup; Cgroup.Guard.
-- - CpuSet (lib/utlsys.c): sys_get_cpu_host_list, cpuselector and sys_setcpuset; CpuSet.Picks and
--   CpuSet.Weights. The type double is a parameter, of which one theorem supposes that
--   -1.0 < 0.0 and that adding 0.0 changes no comparison.
-- - CpuLimit (lib/utlsys.c): sys_set_cont_weight, sys_set_cont_usage and the functions that read
--   these limits; CpuLimit.Range.
-- - Account (lib/subprc.c): prc_cnt_usage, prc_cnt_pressure, prc_cnt_pids_current, prc_host_loadavg
--   and prc_upd_users; Account.Field.
-- - Devices (lib/unicnt.c, lib/lowapl.c): cnt_set_sup_devices, cnt_unset_sup_devices and
--   cnt_mapcontids; Devices.Told. Launch (lib/unicnt.c): cnt_exit, cnt_launch, cnt_setstdio,
--   cnt_initscript, cnt_getarch and cnt_getdist; Launch.Exit, Launch.Redirect.
-- - Status (lib/utlsys.c, lib/utlsys.h): sys_update_cont_status and what it calls, in Status.Memory
--   (get_memory_info, get_memory_stress), Status.Stat (sys_get_cpustat), Status.Load
--   (sys_cal_loadavg) and Status.Traffic (get_bandwidth_info); Status.Scale, Status.Shown and
--   Status.Update. Status.Numbers stands for the type double.
-- - Remount, Memfd and Start (lib/utlsys.c): sys_check_remount, sys_get_memfd, and sys_set_start
--   with get_start; Remount.Again, Memfd.Closed, Start.Kept.
-- - Monitor (lib/unimon.c): check_binding, do_check_mounts, do_check_pids and mon_monitoring;
--   Monitor.Window, Monitor.Pids and Monitor.Watch.
-- - Rootfs (lib/unicnt.c): do_mkdir, cnt_set_rootfs_dir and cnt_unset_rootfs_dir, with at most one
--   mount on each directory; Rootfs.Populate, Rootfs.Unmount.
-- - NetNs (lib/utlsys.c): ns_get_ip_num as get_ip_num, with the C function of that name as a
--   parameter; NetNs.Restore.
-- The Examples files hold tests and each theorem at a concrete input.
--
-- Fuel: `boot` takes the number of rounds; without a reboot one is enough. `attend_loop` takes the
-- number of polls; in kill mode 1, without more interrupts, two are enough. Before that the loop
-- lasts as long as the container, and `none` only says that it is not over. The loops of the lock,
-- of prc_childkill and of cont_shutdown are bounded by the code's own counters. The loops over a
-- file take its length, of which every read uses up a byte; the loop over the variables of a
-- template's line is bounded by the code's own counter.
--
-- Not modelled: logging; monitoring of app/vzgot.c, a fork that executes an image; setloadavg and
-- cnt_updateproc of lib/unicnt.c; the making and the printing of a status, the namespace report
-- and the detaching of a process in lib/utlsys.c; the stand-alone utilities; the
-- shell scripts, of which only the exit status matters here.
pub mod Base
pub mod Text
pub mod Signal
pub mod Vector
pub mod Boot
pub mod Lock
pub mod Process
pub mod Attend
pub mod Command
pub mod Time
pub mod Cpu
pub mod Clone
pub mod Config
pub mod Template
pub mod Pid
pub mod Rootfs
pub mod NetNs
pub mod Console
pub mod Cpuinfo
pub mod Meminfo
pub mod Sysfs
pub mod Limits
pub mod Cgroup
pub mod CpuSet
pub mod CpuLimit
pub mod Account
pub mod Devices
pub mod Launch
pub mod Status
pub mod Remount
pub mod Memfd
pub mod Start
pub mod Monitor
