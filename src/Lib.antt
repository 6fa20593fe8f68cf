-- ===== src/Lib.antt =====
-- Verification of OhMy Miner ETC, an Ethereum Classic miner for NVIDIA cards: the host code in C++ and
-- the code for the cards in CUDA.
--
-- The program. `main` reads the command line and builds a mining engine. The engine owns a pool client,
-- which speaks Stratum over a socket, a generator of the DAG, and a device manager. A job of the pool
-- reaches the engine by a callback, which generates the DAG of the job's epoch; the mining loop then has
-- the device manager search nonces and hands the solutions to the client. Ethash gives the sizes, the
-- epoch of a seed hash, the light cache and the check of a solution, over Keccak. The device manager
-- searches either at once, or through a pipeline of CUDA streams and an executor that runs the batches;
-- both go through a launcher that picks one of three kernels. The kernels hash a range of nonces each,
-- over their own Keccak, and write the solutions into a buffer that the host reads back.
--
-- The files, each with its children, and what they model:
--   Common     the shared names: numbers, words of w bits, lists, tests, the laws of the bit operations
--   Hex        src/utils/hex_utils.cpp: hexToHash32 is hex_to_hash32, and so on
--   Keccak     src/core/keccak.cpp: keccak_f1600, keccak, keccak256, keccak512
--   Ethash     src/core/ethash.cpp: getDatasetSize, epochFromSeedHash, calculateCache, computeHashimoto,
--              verifySolution
--   Types      include/ohmy/types.hpp: MiningJob, Solution
--   Stratum    src/network/stratum_client.cpp: Frame is the scanner of processMessages, Notify what the
--              notifications do, Address the pool address, Session the requests
--   Launcher   src/cuda/kernels/kernel_launcher.cpp: launch_search_kernel
--   Pipeline   src/cuda/pipeline/pipeline_manager.cpp: the streams and their buffers
--   Executor   src/cuda/pipeline/search_executor.cpp: runSync, runAsyncTick; Turns and Rounds are its calls
--              one after the other
--   Dag        src/dag/dag_generator.cpp: generate, loadFromCache, saveToCache
--   Engine     src/core/mining_engine.cpp, with src/utils/difficulty.cpp in Difficulty: the callbacks and
--              an iteration of the loop of run; Mining is one with the device manager in it
--   Miner      src/miner_main.cpp: parseArgs
--   Settings   src/utils/config.cpp: the configuration manager, a second parser that main does not call
--   Cuda       the code for the cards, under src/cuda:
--     DeviceKeccak   kernels/keccak_dev.cuh, kernels/keccak_constants.cu: the hashes on the card
--     SearchHash     kernels/search_kernel.cu: the hash of a nonce in the three search kernels, and in
--                    Agreement how they agree
--     SearchKernel   kernels/search_kernel.cu: their threads and launch functions. Target is the comparison
--                    with the target, Nonces the nonces of the threads, Output, Launches and Found the
--                    buffer of solutions
--     DagKernel      dag_kernel.cu: its permutation, the kernel, and generateDagGpu in Batches
--     DeviceState    core/device_state.cpp, modules/device_initializer.cu, threading/mining_thread.cu
--     DeviceManager  device_manager.cu: Found and Launched are the synchronous search from the nonces to
--                    the solutions, Async a tick, Pipelined a round of ticks over the streams,
--                    MultiGpu the methods for several devices
--     Callback       result_callback.cu, result_callback.hpp
-- The runs and the concrete instances of the statements stand in the modules Tests and Examples.
--
-- How the code is modelled. Texts and hashes are lists of byte codes, machine words are natural numbers
-- with their wrap-around written out, and a name in camel case becomes one in snake case. An object is a
-- record of its fields, and a method a function from the old record to the new one and the result; an
-- output parameter is an argument, its old value, and a part of the result, its new one. An exception is
-- the value none, or a constructor where it matters. What the code asks of the outside is an argument or
-- a part of the state: the script of a socket (answers and deliveries of the client), the outcome of a
-- CUDA call, of an allocation, of the file system, of the environment. A callback of the client is an
-- event that it emits, and that the engine handles in order. The JSON library is a record of operations
-- (Stratum.Json), of which the theorems assume nothing; its exceptions are the value none. The host and
-- the card are little-endian.
--
-- The card. The threads of a launch run in an order that the card chooses: a schedule, which gives for
-- the number of threads the list of their indices and is a parameter of the model (it is complete when
-- it names each thread). A thread reads only what no thread of its launch writes, and writes the slot
-- that its own atomicAdd has given it, so that a thread is one step and any interleaving is an order of
-- the threads. The memory of the card is a function from indices to words. A grid that CUDA refuses runs
-- no thread. In Executor and Engine the search of the device is a parameter; Cuda.DeviceManager and
-- Engine.Mining put the launcher and the kernels in its place.
--
-- Fuel. The outer loop of the scanner has as much fuel as the buffer has characters, and each round goes
-- over one at least; 16 digits print any 64-bit number; the scan for an epoch has the 2000 steps of the
-- code. The absorbing loops of Keccak have as much fuel as the input has bytes. The loop over the
-- batches of the DAG has the fuel that its caller gives. All else is structural.
--
-- Not modelled: the log, the timers and the statistics in floating point, and the mutexes but for that of
-- the statistics of a device (the operations are sequences); the CUDA calls of a search are taken to
-- succeed. Of the device manager: the list and the texts of the devices, initDevice, and the destructor.
-- The texts of an authorization are taken to be UTF-8, as dump wants them (the ones of a share are not),
-- and a dataset to have a number of items that is not 0 modulo 2^32, by which computeHashimoto divides.
-- The memory profiler prints figures; the warp kernel reads its arrays out of bounds and the kernels of
-- ethash_kernel.cu are placeholders, and none of them is launched. The TCP connection is a
-- class that the program does not use.
pub mod Common
pub mod Hex
pub mod Keccak
pub mod Ethash
pub mod Types
pub mod Stratum
pub mod Launcher
pub mod Pipeline
pub mod Executor
pub mod Dag
pub mod Engine
pub mod Miner
pub mod Cuda
pub mod Settings
